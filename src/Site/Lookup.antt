-- ===== src/Site/Lookup.antt =====
-- What the search of the location table finds.
use data_stream_pilot.Shared.{
  ℕ, ◌<◌, ◌≡◌, refl, sym, ap, ◌∙◌, ◌==◌, ◌≢◌, inl, inr, Bool-cases, List, [], ◌∷◌, ◌++◌, arith,
  if◌then◌else◌, All,
}
use data_stream_pilot.Shared.Text.{Text, codes, str_eq, str_eq_iff, str_eq_refl}
use data_stream_pilot.Site.{LocationMapping, get_binary_value, location_map}

-- A location in the table, with none of its name before it, has its own value.
get_binary_value_first :
    (before : List LocationMapping) (m : LocationMapping) (after : List LocationMapping)
    → All (λ x. x.location ≢ m.location) before
    → get_binary_value (before ++ (m ∷ after)) m.location ≡ m.binary_value
unfolding get_binary_value
get_binary_value_first [] m after h = rw (str_eq_refl m.location)
get_binary_value_first (x ∷ before) m after h =
    ground (arith, str_eq_iff x.location m.location, get_binary_value_first before m after h.1)

get_binary_value_absent :
    (mapping : List LocationMapping) (location : Text)
    → All (λ x. x.location ≢ location) mapping
    → get_binary_value mapping location ≡ 0
unfolding get_binary_value
get_binary_value_absent [] location h = refl
get_binary_value_absent (x ∷ mapping) location h =
    ground (arith, str_eq_iff x.location location, get_binary_value_absent mapping location h.1)

-- The values of a table whose values all lie below a bound do too, and so does the default.
get_binary_value-lt :
    (bound : ℕ) (mapping : List LocationMapping) (location : Text)
    → 0 < bound
    → All (λ x. x.binary_value < bound) mapping
    → get_binary_value mapping location < bound
unfolding get_binary_value
get_binary_value-lt bound [] location p h = p
get_binary_value-lt bound (x ∷ mapping) location p h =
    ground (arith, get_binary_value-lt bound mapping location p h.1)

-- Every location is sent as a code of three bits.
pub get_binary_value_three_bits : (location : Text) → get_binary_value location_map location < 8
get_binary_value_three_bits location =
    get_binary_value-lt 8 location_map location (omega arith) (omega arith)

abbrev name_of : ℕ → Text
name_of v =
    if v == 1
    then codes "grenoble"
    else if v == 2
    then codes "paris"
    else if v == 3
    then codes "lille"
    else if v == 4
    then codes "saclay"
    else codes "strasbourg"

name-get_binary_value :
    (name : ℕ → Text) (mapping : List LocationMapping) (a : Text)
    → All (λ x. x.binary_value ≢ 0 → x.location ≡ name x.binary_value) mapping
    → get_binary_value mapping a ≢ 0
    → a ≡ name (get_binary_value mapping a)
unfolding get_binary_value
name-get_binary_value name [] a h p = absurd (p refl)
name-get_binary_value name (x ∷ mapping) a h p = elim (Bool-cases (str_eq x.location a)) [
  | inl e ↦
      let q : x.binary_value ≢ 0 = rw e at p in rw e (sym ((str_eq_iff x.location a).0 e) ∙ h.0 q)
  | inr e ↦
      let q : get_binary_value mapping a ≢ 0 = rw e at p in
      rw e (name-get_binary_value name mapping a h.1 q)
]

name_of-get_binary_value :
    (a : Text) → get_binary_value location_map a ≢ 0 → a ≡ name_of (get_binary_value location_map a)
name_of-get_binary_value a =
    name-get_binary_value name_of location_map a
      (λ h. absurd (h refl), (λ _. refl, (λ _. refl, (λ _. refl, (λ _. refl, (λ _. refl, tt))))))

-- A code other than 0 stands for one location: two names with the same code, not 0, are equal.
pub get_binary_value_injective :
    (a b : Text)
    → get_binary_value location_map a ≢ 0
    → get_binary_value location_map a ≡ get_binary_value location_map b
    → a ≡ b
get_binary_value_injective a b p e =
    name_of-get_binary_value a p ∙ ap name_of e ∙ sym (name_of-get_binary_value b (λ z. p (e ∙ z)))

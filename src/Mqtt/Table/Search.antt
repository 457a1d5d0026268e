-- ===== src/Mqtt/Table/Search.antt =====
-- The two searches of the table, and the writes to one entry, against the slots.
use mathlib.Core.List.{map}
use mathlib.Core.Path.{ap₂}
use data_stream_pilot.Shared.{
  ℕ, zero, suc, ◌+◌, ◌≤◌, ◌<◌, ◌≡◌, ◌≢◌, refl, sym, ap, ◌∙◌, ◌⊎◌, inl, inr, Bool-cases, false, List,
  [], ◌∷◌, Option, none, some, ◌==◌, arith, length, set, if◌then◌else◌,
}
use data_stream_pilot.Shared.Text.{Text}
use data_stream_pilot.Mqtt.{Subscription, topic_name, find_empty, find_topic}
use data_stream_pilot.Mqtt.Table.{Slot, free, stale, live, slot_of, IsTable, put, is_full, position}

find_empty-ge : (subs : List Subscription) (k : ℕ) → k ≤ find_empty subs k
unfolding find_empty
find_empty-ge [] k = omega arith
find_empty-ge (s ∷ subs) k = ground (arith, find_empty-ge subs (k + 1))

pub find_empty-le : (subs : List Subscription) (k : ℕ) → find_empty subs k ≤ k + length subs
unfolding find_empty
find_empty-le [] k = omega arith
find_empty-le (s ∷ subs) k = ground (arith, find_empty-le subs (k + 1))

-- the entries without an id, and with one
slot_of-empty :
    (topics : List ℕ) (s : Subscription) (new : Slot) (l : List Slot)
    → s.id ≡ 0
    → (put new (slot_of topics s ∷ l) ≡ new ∷ l) × (is_full (slot_of topics s ∷ l) ≡ false)
unfolding slot_of put is_full
slot_of-empty topics s new l e = go s.name
  where
    go :
        (name : Option ℕ)
        → let slot = elim name as (λ x. Slot) [
          | none ↦ free
          | some row ↦
              if s.id == 0 then stale (topic_name topics row) else live (topic_name topics row)
        ] in
          (put new (slot ∷ l) ≡ new ∷ l) × (is_full (slot ∷ l) ≡ false)
    go none = (refl, refl)
    go (some row) = rw e (refl, refl)

slot_of-live :
    (topics : List ℕ) (s : Subscription) (k : ℕ)
    → s.name ≡ some k
    → (s.id == 0) ≡ false
    → slot_of topics s ≡ live (topic_name topics k)
unfolding slot_of
slot_of-live topics s k e f = rw (e, f) refl

slot_of-row :
    (topics topics' : List ℕ) (s : Subscription) (k : ℕ)
    → (s.name ≡ none) ⊎ (s.name ≡ some k)
    → topic_name topics' k ≡ topic_name topics k
    → slot_of topics' s ≡ slot_of topics s
unfolding slot_of
slot_of-row topics topics' s k (inl e) h = rw e refl
slot_of-row topics topics' s k (inr e) h = rw (e, h) refl

named :
    (s : Subscription) (k : ℕ)
    → ((s.name ≡ none) × (s.id ≡ 0)) ⊎ (s.name ≡ some k)
    → (s.name ≡ none) ⊎ (s.name ≡ some k)
named s k (inl h) = inl h.0
named s k (inr h) = inr h

-- The entries above a row that is rewritten show what they showed.
module _ (topics topics' : List ℕ) where
  slots-kept :
      (subs : List Subscription) (k : ℕ)
      → IsTable k subs
      → ((r : ℕ) → k ≤ r → r < k + length subs → topic_name topics' r ≡ topic_name topics r)
      → map (slot_of topics') subs ≡ map (slot_of topics) subs
  slots-kept [] k t same = refl
  slots-kept (s ∷ subs) k (h, t) same =
      ap₂ (λ x l. x ∷ l)
        (slot_of-row topics topics' s k (named s k h) (same k (omega arith) (omega arith)))
        (slots-kept subs (k + 1) t (λ r h h'. same r (omega arith) (omega arith)))

  -- An entry that takes the first empty place.
  pub slots-put :
      (subs : List Subscription) (k d : ℕ) (entry : Subscription)
      → IsTable k subs
      → find_empty subs k ≡ k + d
      → d < length subs
      → ((r : ℕ)
          → r ≢ k + d
          → k ≤ r
          → r < k + length subs
          → topic_name topics' r ≡ topic_name topics r)
      → map (slot_of topics') (set subs d entry)
        ≡ put (slot_of topics' entry) (map (slot_of topics) subs)
  unfolding find_empty put
  slots-put [] k d entry t e h same = absurd (omega arith)
  slots-put (s ∷ subs) k zero entry (x, t) e h same =
      let empty : s.id ≡ 0 = ground (arith, find_empty-ge subs (k + 1)) in
      let rest =
        slots-kept subs (k + 1) t (λ r h h'. same r (omega arith) (omega arith) (omega arith)) in
      ap (λ l. slot_of topics' entry ∷ l) rest
      ∙ sym (slot_of-empty topics s (slot_of topics' entry) (map (slot_of topics) subs) empty).0
  slots-put (s ∷ subs) k (suc d) entry (inl (no_name, no_id), t) e h same = absurd (ground arith)
  slots-put (s ∷ subs) k (suc d) entry (inr name, t) e h same =
      let used : (s.id == 0) ≡ false = ground arith in
      let found : find_empty subs (k + 1) ≡ k + 1 + d = ground arith in
      let rest =
        slots-put subs (k + 1) d entry t found (omega arith)
          (λ r ne h h'. same r (λ q. ne (omega arith)) (omega arith) (omega arith)) in
      let kept = same k (λ q. absurd (omega arith)) (omega arith) (omega arith) in
      rw (slot_of-live topics s k name used, slot_of-live topics' s k name used, kept)
        (ap (λ l. live (topic_name topics k) ∷ l) rest)

-- No slot is left exactly where the search runs to the end.
pub is_full-find_empty :
    (topics : List ℕ) (subs : List Subscription) (k : ℕ)
    → IsTable k subs
    → is_full (map (slot_of topics) subs) ≡ (find_empty subs k == (k + length subs))
unfolding find_empty is_full
is_full-find_empty topics [] k t = ground arith
is_full-find_empty topics (s ∷ subs) k (x, t) = elim (Bool-cases (s.id == 0)) [
  | inl e ↦
      let empty : s.id ≡ 0 = ground arith in
      (slot_of-empty topics s free (map (slot_of topics) subs) empty).1 ∙ ground arith
  | inr e ↦ elim x [
    | inl h ↦ absurd (ground arith)
    | inr name ↦
        rw (slot_of-live topics s k name e)
          (ground (arith, is_full-find_empty topics subs (k + 1) t))
  ]
]

-- The search by name is the search for a slot.
pub find_topic-position :
    (topics : List ℕ) (name : Text) (subs : List Subscription) (k : ℕ)
    → IsTable k subs
    → find_topic topics name subs k ≡ position name (map (slot_of topics) subs) k
unfolding find_topic position slot_of
find_topic-position topics name [] k t = refl
find_topic-position topics name (s ∷ subs) k (inl (no_name, no_id), t) =
    rw (no_name, find_topic, slot_of) (find_topic-position topics name subs (k + 1) t)
find_topic-position topics name (s ∷ subs) k (inr e, t) =
    let rest = find_topic-position topics name subs (k + 1) t in
    elim (Bool-cases (s.id == 0)) [
      | inl f ↦ rw (e, f, find_topic, slot_of) (rw rest)
      | inr f ↦ rw (e, f, find_topic, slot_of) (rw rest)
    ]

pub IsTable-set :
    (subs : List Subscription) (k d : ℕ) (entry : Subscription)
    → IsTable k subs
    → ((entry.name ≡ none) × (entry.id ≡ 0)) ⊎ (entry.name ≡ some (k + d))
    → IsTable k (set subs d entry)
IsTable-set [] k d entry t h = tt
IsTable-set (s ∷ subs) k zero entry (x, t) (inl h) = (inl h, t)
IsTable-set (s ∷ subs) k zero entry (x, t) (inr h) = (inr (h ∙ ap some (omega arith)), t)
IsTable-set (s ∷ subs) k (suc d) entry (x, t) (inl h) =
    (x, IsTable-set subs (k + 1) d entry t (inl h))
IsTable-set (s ∷ subs) k (suc d) entry (x, t) (inr h) =
    (x, IsTable-set subs (k + 1) d entry t (inr (h ∙ ap some (omega arith))))

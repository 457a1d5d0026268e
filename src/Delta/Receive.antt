-- ===== src/Delta/Receive.antt =====
-- A receiver of the payloads: what it reads back from their texts.
use mathlib.Core.List.{append_assoc}
use data_stream_pilot.Shared.{
  ℕ, suc, ◌+◌, ◌-◌, ◌%◌, ◌≤◌, ◌<◌, ◌≡◌, refl, ap, ◌∙◌, ◌==◌, if◌then◌else◌, true, false, Bool-cases,
  inl, inr, List, [], ◌∷◌, ◌++◌, some, arith, length, length-append, ◌⊎◌, All, drop, get_or,
}
use data_stream_pilot.Shared.Int.{ℤ, ◌-ℤ◌, ◌+ℤ◌, IsI16}
use data_stream_pilot.Shared.Text.{Text, codes}
use data_stream_pilot.Shared.Decimal.{unsigned_decimal, signed_decimal, atoi}
use data_stream_pilot.Shared.Decimal.RoundTrip.{atoi-signed_decimal, unsigned_decimal-digit}
use data_stream_pilot.Delta.{Encoder, Sample, encode, sample_text, sample_json, run}
use data_stream_pilot.Delta.Exact.{
  IsTaken, IsByte, IsReady, decode, encode_lem, encode-is_base, encode_decodes, next_state,
  round_goes_on,
}

-- the byte in front of the last two
abbrev flag : Text → ℕ
flag text = get_or text (length text - 3) 0

-- The receiver's view of a payload with a site of one digit: the reading, and the base from then
-- on. The value stands behind the 17 bytes of `{"s": "4", "t": "`.
unfoldable receive : ℤ → Text → ℤ × ℤ
receive base payload =
    let value = atoi (drop 17 payload) in
    if flag payload == b'1' then (value, value) else (base +ℤ value, base)

unfoldable pub receive_all : ℤ → List Text → List ℤ
unfolding receive
receive_all base [] = []
receive_all base (payload ∷ payloads) =
    let (reading, base') = receive base payload in reading ∷ receive_all base' payloads

get_or-append : (a t : Text) (i : ℕ) → get_or (a ++ t) (length a + i) 0 ≡ get_or t i 0
get_or-append [] t i = ap (λ k. get_or t k 0) (omega arith)
get_or-append (x ∷ a) t i =
    let e : suc (length a) + i ≡ suc (length a + i) = omega arith in
    ap (λ k. get_or (x ∷ (a ++ t)) k 0) e ∙ get_or-append a t i

flag-append : (a t : Text) → 3 ≤ length t → flag (a ++ t) ≡ flag t
flag-append a t h =
    let e : length (a ++ t) - 3 ≡ length a + (length t - 3) = omega (arith, length-append a t) in
    ap (λ i. get_or (a ++ t) i 0) e ∙ get_or-append a t (length t - 3)

flag-sample_json :
    (site : ℕ) (buffer : Text) (is_base : ℕ)
    → is_base < 10
    → flag (sample_json site buffer is_base) ≡ b'0' + is_base
flag-sample_json site buffer is_base h =
    let last = (b'0' + is_base) ∷ codes "\"}" in
    let third = codes "\", \"b\": \"" ++ last in
    let second = codes "\", \"t\": \"" ++ (buffer ++ third) in
    rw (unsigned_decimal-digit is_base h) (
      flag-append (codes "{\"s\": \"") (unsigned_decimal site ++ second)
        (omega (arith, length-append {0}))
      ∙ flag-append (unsigned_decimal site) second (omega (arith, length-append {0}))
      ∙ flag-append (codes "\", \"t\": \"") (buffer ++ third) (omega (arith, length-append {0}))
      ∙ flag-append buffer third (omega arith))

drop-sample_json :
    (site : ℕ) (buffer : Text) (is_base : ℕ)
    → site < 10
    → drop 17 (sample_json site buffer is_base)
      ≡ buffer ++ (codes "\", \"b\": \"" ++ (unsigned_decimal is_base ++ codes "\"}"))
drop-sample_json site buffer is_base h = rw (unsigned_decimal-digit site h) refl

value-sample_text :
    (value : ℤ) (rest : Text) → IsI16 value → atoi (sample_text value ++ rest) ≡ value
value-sample_text value rest h =
    rw (append_assoc (signed_decimal value) _ rest)
      (atoi-signed_decimal value _ (omega arith) (omega arith) refl)

receive_lem :
    (site : ℕ) (base : ℤ) (x : Sample)
    → site < 8
    → x.is_base ≤ 1
    → IsI16 x.value
    → receive base (sample_json site (sample_text x.value) x.is_base)
      ≡ (decode base x, (if x.is_base == 1 then x.value else base))
unfolding receive decode
receive_lem site base x h k v =
    rw
      (
        flag-sample_json site (sample_text x.value) x.is_base (omega arith),
        drop-sample_json site (sample_text x.value) x.is_base (omega arith),
        value-sample_text x.value _ v,
      )
      (elim (Bool-cases (x.is_base == 1)) [
        | inl e ↦ let f : ((b'0' + x.is_base) == b'1') ≡ true = ground arith in rw (e, f) refl
        | inr e ↦ let f : ((b'0' + x.is_base) == b'1') ≡ false = ground arith in rw (e, f) refl
      ])

-- At each round the reading is sent as a base, or lies from -128 to 127 away from the base.
abbrev pub IsNear : ℕ → ℤ → List ℤ → Type 0
IsNear counter base [] = Unit
IsNear counter base (temp ∷ temps) =
    ((counter % 10 ≡ 0) ⊎ IsByte (temp -ℤ base))
    × IsNear (counter % 10 + 1) (if counter % 10 == 0 then temp else base) temps

encode-bases :
    (counter : ℕ) (base temp : ℤ)
    → let x = encode counter base temp in
      (x.next_base ≡ (if counter == 0 then temp else base))
      × ((if x.is_base == 1 then x.value else base) ≡ x.next_base)
unfolding encode
encode-bases counter base temp = elim (Bool-cases (counter == 0)) [
  | inl e ↦ rw e (refl, refl)
  | inr e ↦ rw e (refl, refl)
]

near-based :
    (counter : ℕ) (base d : ℤ)
    → (counter ≡ 0) ⊎ IsTaken base
    → (counter ≡ 0) ⊎ IsByte d
    → (counter ≡ 0) ⊎ (IsTaken base × IsByte d)
near-based counter base d (inl z) n = inl z
near-based counter base d (inr t) (inl z) = inl z
near-based counter base d (inr t) (inr n) = inr (t, n)

-- Over any number of readings above 30, each sent as a base or from -128 to 127 away from it, main
-- does not return, and a receiver that knows the base reads all of them back from the payloads.
pub run_received :
    (site : ℕ) (s : Encoder) (temps : List ℤ)
    → site < 8
    → IsReady s
    → All IsTaken temps
    → IsNear s.counter s.base_value temps
    → (payloads : List Text) × (run site s temps ≡ some payloads)
      × (receive_all s.base_value payloads ≡ temps)
unfolding run receive_all
run_received site s [] h r t n = ([], refl, refl)
run_received site s (temp ∷ temps) h r t n =
    let c = s.counter % 10 in
    let x = encode c s.base_value temp in
    let (e, ready) = round_goes_on site s temp h r t.0 in
    let (bases, kept) = encode-bases c s.base_value temp in
    let (rest, f, same) = run_received site (next_state s temp) temps h ready t.1 (rw bases n.1) in
    let payload = sample_json site (sample_text x.value) x.is_base in
    let read =
      receive_lem site s.base_value x h (encode-is_base c s.base_value temp)
        (encode_lem c s.base_value temp t.0 r.based).1 in
    let exact = encode_decodes c s.base_value temp t.0 (near-based c s.base_value _ r.based n.0) in
    (payload ∷ rest, rw (e, run, f) refl, rw (receive_all, read, exact, kept, same) refl)

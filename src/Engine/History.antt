-- ===== src/Engine/History.antt =====
-- The window against the readings that were taken: each slot holds the last reading that was
-- written to it, or 0 if that was taken for an outlier.
use data_stream_pilot.Shared.{
  ℕ, zero, suc, ◌≡◌, refl, ◌∙◌, List, [], ◌∷◌, map, ◌⊎◌, if◌then◌else◌, Bool-cases, inl, inr, set,
  length-set,
}
use data_stream_pilot.Shared.Int.{ℤ, pos, eqb_ℤ}
use data_stream_pilot.Float.{Float}
use data_stream_pilot.Window.{is_good}
use data_stream_pilot.Window.Clean.{clean}
use data_stream_pilot.Noise.{Rand}
use data_stream_pilot.Driver.{Lps}
use data_stream_pilot.Gcoap.{Gcoap}
use data_stream_pilot.Engine.{
  Config, Engine, noisy, take_reading, rest, engine_round, engine_rounds,
}
use data_stream_pilot.Engine.Rounds.{IsReady, report-cleaned, engine_round-IsReady}

-- slot by slot, the window has the reading or 0
abbrev pub Matches : List ℤ → List ℤ → Type 0
Matches [] [] = Unit
Matches [] (y ∷ ys) = ⊥
Matches (x ∷ xs) [] = ⊥
Matches (x ∷ xs) (y ∷ ys) = ((y ≡ x) ⊎ (y ≡ pos 0)) × Matches xs ys

pub Matches-refl : (l : List ℤ) → Matches l l
Matches-refl [] = tt
Matches-refl (x ∷ l) = (inl refl, Matches-refl l)

Matches-set : (h l : List ℤ) (i : ℕ) (x : ℤ) → Matches h l → Matches (set h i x) (set l i x)
Matches-set [] [] i x m = tt
Matches-set [] (y ∷ l) i x m = absurd m
Matches-set (z ∷ h) [] i x m = absurd m
Matches-set (z ∷ h) (y ∷ l) zero x m = (inl refl, m.1)
Matches-set (z ∷ h) (y ∷ l) (suc i) x m = (m.0, Matches-set h l i x m.1)

module _ {F D : Type 0} (fl : Float F D) (mean spread : F) where
  clean-Matches :
      (x y : ℤ)
      → (y ≡ x) ⊎ (y ≡ pos 0)
      → (clean fl mean spread y ≡ x) ⊎ (clean fl mean spread y ≡ pos 0)
  clean-Matches x y m = elim (Bool-cases (is_good fl mean spread y)) [
    | inl e ↦ rw e m
    | inr e ↦ rw e (inr refl)
  ]

  Matches-clean : (h l : List ℤ) → Matches h l → Matches h (map (clean fl mean spread) l)
  Matches-clean [] [] m = tt
  Matches-clean [] (y ∷ l) m = absurd m
  Matches-clean (x ∷ h) [] m = absurd m
  Matches-clean (x ∷ h) (y ∷ l) m = (clean-Matches x y m.0, Matches-clean h l m.1)

module _ {V R P W F D : Type 0} (fl : Float F D) (rn : Rand R) (lps : Lps V) (g : Gcoap P W)
    (config : Config) where
  -- the readings, with their noise, as a round writes them: no outlier is removed
  abbrev pub history_round : List ℤ → Engine V R W F → List ℤ
  history_round h e =
      let (ret, temp, v) = lps.read_temp e.board.device in
      if eqb_ℤ ret lps.ok then set h e.current_index (noisy fl rn temp e.random).0 else h

  unfoldable pub history_rounds : ℕ → List ℤ → Engine V R W F → List ℤ
  history_rounds zero h e = h
  history_rounds (suc n) h e =
      history_rounds n (history_round h e) (engine_round fl rn lps g config e)

  take_reading-Matches :
      (temp : ℤ) (h : List ℤ) (e : Engine V R W F)
      → IsReady e
      → Matches h e.temp_list
      → Matches
          (set h e.current_index (noisy fl rn temp e.random).0)
          (take_reading fl rn lps g config temp e).temp_list
  unfolding take_reading
  take_reading-Matches temp h e r m =
      let x = (noisy fl rn temp e.random).0 in
      let window = set e.temp_list e.current_index x in
      let full = length-set e.temp_list e.current_index x ∙ r.full in
      let (mean, spread, same) = report-cleaned fl window full in
      rw same (
        Matches-clean fl mean spread (set h e.current_index x) window
          (Matches-set h e.temp_list e.current_index x m))

  engine_round-Matches :
      (h : List ℤ) (e : Engine V R W F)
      → IsReady e
      → Matches h e.temp_list
      → Matches (history_round h e) (engine_round fl rn lps g config e).temp_list
  unfolding engine_round rest
  engine_round-Matches h e r m =
      let (ret, temp, v) = lps.read_temp e.board.device in
      let e' : Engine V R W F = record e { board = record e.board { device = v } } in
      let r' : IsReady e' = record {
        full = r.full;
        words = r.words;
        inside = r.inside;
        client = r.client;
      } in
      elim (Bool-cases (eqb_ℤ ret lps.ok)) [
        | inl ok ↦ rw ok (take_reading-Matches temp h e' r' m)
        | inr failed ↦ rw failed m
      ]

  -- From a ready state whose window has, in each slot, the reading of a history or 0: after any
  -- number of rounds each slot has the last reading that was written to it, or 0. The removal of
  -- outliers never moves a reading, and never makes one up.
  pub engine_rounds-Matches :
      (n : ℕ) (h : List ℤ) (e : Engine V R W F)
      → IsReady e
      → Matches h e.temp_list
      → Matches (history_rounds n h e) (engine_rounds fl rn lps g config n e).temp_list
  unfolding engine_rounds history_rounds
  engine_rounds-Matches zero h e r m = m
  engine_rounds-Matches (suc n) h e r m =
      engine_rounds-Matches n (history_round h e) (engine_round fl rn lps g config e)
        (engine_round-IsReady fl rn lps g config e r) (engine_round-Matches h e r m)

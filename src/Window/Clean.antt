-- ===== src/Window/Clean.antt =====
-- `remove_outliers` works in place and one element at a time.
use mathlib.Core.List.{append_assoc}
use data_stream_pilot.Shared.{ℕ, ◌≡◌, refl, List, [], ◌∷◌, ◌++◌, map, length, if◌then◌else◌}
use data_stream_pilot.Shared.Int.{ℤ, pos}
use data_stream_pilot.Loops.{get_or-append, set-append, length-snoc}
use data_stream_pilot.Float.{Float}
use data_stream_pilot.Window.{window_size, is_good, remove_from, remove_outliers}

module _ {F D : Type 0} (fl : Float F D) (mean stddev : F) where
  -- a good reading is kept, any other becomes 0
  abbrev pub clean : ℤ → ℤ
  clean x = if is_good fl mean stddev x then x else pos 0

  remove_from_rest :
      (after before : List ℤ)
      → remove_from fl mean stddev (length after) (length before) (length before) (before ++ after)
        ≡ before ++ map clean after
  unfolding remove_from
  remove_from_rest [] before = refl
  remove_from_rest (x ∷ after) before =
      let v = clean x in
      let ih = remove_from_rest after (before ++ (v ∷ [])) in
      rw (get_or-append before x after (pos 0), remove_from, set-append before x after v)
        (rw
          (
            append_assoc before (v ∷ []) after,
            length-snoc before v,
            append_assoc before (v ∷ []) (map clean after),
          )
          at ih)

  remove_from-map :
      (temp_list : List ℤ) (n : ℕ)
      → length temp_list ≡ n
      → remove_from fl mean stddev n 0 0 temp_list ≡ map clean temp_list
  remove_from-map temp_list n e = rw (← e) (remove_from_rest temp_list [])

  -- On a window of 65 readings the loop keeps each reading that is at most two standard deviations
  -- from the mean, in its place, and writes 0 over each other one.
  pub remove_outliers-map :
      (temp_list : List ℤ)
      → length temp_list ≡ window_size
      → remove_outliers fl temp_list mean stddev ≡ map clean temp_list
  unfolding remove_outliers
  remove_outliers-map temp_list e = remove_from-map temp_list window_size e

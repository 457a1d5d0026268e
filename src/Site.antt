-- ===== src/Site.antt =====
-- The table of locations of compute_engine/main.c and its search.
pub mod Lookup
use data_stream_pilot.Shared.{ℕ, List, [], ◌∷◌, if◌then◌else◌}
use data_stream_pilot.Shared.Text.{Text, codes, str_eq}

-- `struct LocationMapping`; the row with a NULL location is the end of the list
pub record LocationMapping : Type 0 where
  pub location : Text
  pub binary_value : ℕ

unfoldable pub get_binary_value : List LocationMapping → Text → ℕ
unfolding str_eq
get_binary_value [] location = 0
get_binary_value (m ∷ mapping) location =
    if str_eq m.location location then m.binary_value else get_binary_value mapping location

abbrev entry : Text → ℕ → LocationMapping
entry l b = record { location = l; binary_value = b }

abbrev pub location_map : List LocationMapping
location_map =
    entry (codes "UNKNOWN") 0b000
    ∷ entry (codes "grenoble") 0b001
    ∷ entry (codes "paris") 0b010
    ∷ entry (codes "lille") 0b011
    ∷ entry (codes "saclay") 0b100
    ∷ entry (codes "strasbourg") 0b101
    ∷ []

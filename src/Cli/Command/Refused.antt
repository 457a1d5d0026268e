-- ===== src/Cli/Command/Refused.antt =====
-- Commands that the client does not take.
use data_stream_pilot.Shared.{
  ℕ, ◌+◌, ◌≡◌, ◌≢◌, refl, Bool, true, false, List, [], ◌∷◌, Option, none, some, ◌==◌, arith,
  if◌then◌else◌, length, All,
}
use data_stream_pilot.Shared.Text.{Text, codes, str_eq, str_eq_iff}
use data_stream_pilot.Gcoap.{Gcoap}
use data_stream_pilot.Cli.{Cli}
use data_stream_pilot.Cli.Command.{
  arg, method_codes, find_code, parse_options, has_arity, method_cmd, cli_cmd,
}

pub str_eq_of_ne : (a b : Text) → a ≢ b → str_eq a b ≡ false
str_eq_of_ne a b h = ground (arith, str_eq_iff a b)

pub find_code_absent :
    (name : Text) (methods : List Text) (i : ℕ) (code : Option ℕ)
    → All (λ m. name ≢ m) methods
    → find_code name methods i code ≡ code
unfolding find_code
find_code_absent name [] i code h = refl
find_code_absent name (m ∷ methods) i code h =
    rw (str_eq_of_ne name m h.0) (find_code_absent name methods (i + 1) code h.1)

-- the words that may follow the name of the command
abbrev pub words : List Text
words = codes "info" ∷ codes "proxy" ∷ method_codes

module _ {P W : Type 0} (g : Gcoap P W) where
  cli_cmd-method :
      (argv : List Text) (c : Cli W)
      → arg argv 1 ≢ codes "info"
      → arg argv 1 ≢ codes "proxy"
      → cli_cmd g argv c ≡ (
          if length argv == 1
          then (1, c)
          else method_cmd g argv (find_code (arg argv 1) method_codes 0 none) c)
  unfolding cli_cmd
  cli_cmd-method argv c i p =
      rw (str_eq_of_ne (arg argv 1) (codes "info") i, str_eq_of_ne (arg argv 1) (codes "proxy") p)

  both : (b : Bool) (r : ℕ × Cli W) → (if b then r else r) ≡ r
  both true r = refl
  both false r = refl

  -- A command whose first word is not info, proxy or a method returns 1, changes no static variable
  -- and does not touch the network.
  cli_cmd_unknown :
      (argv : List Text) (c : Cli W) → All (λ w. arg argv 1 ≢ w) words → cli_cmd g argv c ≡ (1, c)
  unfolding method_cmd
  cli_cmd_unknown argv c (i, (p, m)) =
      rw (cli_cmd-method argv c i p, find_code_absent (arg argv 1) method_codes 0 none m)
        (both (length argv == 1) (1, c))

  -- A method with another number of arguments than it takes returns 1, changes no static variable
  -- and does not touch the network.
  cli_cmd_arity :
      (argv : List Text) (c : Cli W) (k : ℕ)
      → arg argv 1 ≢ codes "info"
      → arg argv 1 ≢ codes "proxy"
      → find_code (arg argv 1) method_codes 0 none ≡ some k
      → has_arity (length argv) (parse_options argv k).1 k ≡ false
      → cli_cmd g argv c ≡ (1, c)
  unfolding method_cmd
  cli_cmd_arity argv c k i p e f =
      rw (cli_cmd-method argv c i p, e, method_cmd, f) (both (length argv == 1) (1, c))

-- ===== src/Client/Steps/Atomic.antt =====
-- With nothing in between, the steps of a request are the request.
use data_stream_pilot.Shared.{ℕ, ◌≡◌, refl, arith}
use data_stream_pilot.Shared.Int.{pos}
use data_stream_pilot.Shared.Text.{Text}
use data_stream_pilot.Cli.{Cli}
use data_stream_pilot.Cli.Command.{retain_path}
use data_stream_pilot.Client.{Server, send, begin, get_at, finish_post, post_at}
use data_stream_pilot.Client.Steps.{
  called, returned, advance_by, post_request, get_request, shell_request,
}
use data_stream_pilot.Client.Command
use data_stream_pilot.Cli.Command.{find_code, parse_options, finish_request}
use data_stream_pilot.Cli.Command.Refused.{str_eq_of_ne}
use data_stream_pilot.Shared.{List, ◌∷◌, [], ◌≢◌, ◌++◌, ap, take, length, false}
use data_stream_pilot.Shared.Text.{codes, str_eq, take_all}

take_append {ℓ} : {A : Type ℓ} (xs ys : List A) → take (length xs) (xs ++ ys) ≡ xs
take_append [] ys = refl
take_append (x ∷ xs) ys = ap (λ l. x ∷ l) (take_append xs ys)

-- `coap get <host> <uri>`
abbrev shell_argv : Text → Text → List Text
shell_argv host uri = codes "coap" ∷ codes "get" ∷ host ∷ uri ∷ []

module _ {P W : Type 0} (srv : Server P W) where
  post_atomic :
      (uri : Text) (uri_len : ℕ) (msg : Text) (c : Cli W)
      → advance_by srv 8 (post_request srv uri uri_len msg) called c
        ≡ (returned (post_at srv msg uri uri_len c).0, (post_at srv msg uri uri_len c).1)
  unfolding advance_by post_at begin finish_post send retain_path
  post_atomic uri uri_len msg c = ground arith

  get_atomic :
      (uri : Text) (uri_len : ℕ) (c : Cli W)
      → (advance_by srv 8 (get_request srv uri uri_len) called c).1 ≡ get_at srv uri uri_len c
  unfolding advance_by get_at begin send retain_path
  get_atomic uri uri_len c = ground arith

  -- Eight steps of a POST or of a GET with nothing in between are gcoap_post and
  -- send_coap_get_request of the path, the result of the POST included.
  requests_atomic :
      (uri : Text) (uri_len : ℕ) (msg : Text) (c : Cli W)
      → (advance_by srv 8 (post_request srv uri uri_len msg) called c
          ≡ (returned (post_at srv msg uri uri_len c).0, (post_at srv msg uri uri_len c).1))
        × ((advance_by srv 8 (get_request srv uri uri_len) called c).1 ≡ get_at srv uri uri_len c)
  requests_atomic uri uri_len msg c = (post_atomic uri uri_len msg c, get_atomic uri uri_len c)

  shell_cmd :
      (host rest : Text) (c : Cli W)
      → host ≢ codes "-c"
      → Command.cli_cmd srv (shell_argv host (b'/' ∷ rest)) c
        ≡ Command.request srv (shell_argv host (b'/' ∷ rest)) 1 srv.gcoap.type_non 2 c
  unfolding Command.cli_cmd Command.method_cmd find_code Command.has_arity parse_options str_eq
  shell_cmd host rest c h = rw (str_eq_of_ne host (codes "-c") h)

  -- Where no proxy is set, eight steps of the command `coap get <host> <path>` with nothing in
  -- between are the command, for every path that starts with a slash and every host but "-c".
  shell_atomic :
      (host rest : Text) (c : Cli W)
      → host ≢ codes "-c"
      → c.proxied ≡ false
      → advance_by srv 8 (shell_request srv.gcoap.type_non host (b'/' ∷ rest)) called c
        ≡ (returned (pos 0), (Command.cli_cmd srv (shell_argv host (b'/' ∷ rest)) c).1)
  unfolding advance_by Command.request Command.begin_request Command.begin_direct Command.finish
      Command.complete Command.send_and_notify finish_request send retain_path
  shell_atomic host rest c h p =
      let whole = take_append rest (0 ∷ []) in
      let same = take_all (length rest) rest (omega arith) in
      rw (shell_cmd host rest c h) (ground (arith, whole, same))

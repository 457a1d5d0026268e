-- ===== src/Client/Command/Effects.antt =====
-- What a command, a request and a response of the second client change.
use data_stream_pilot.Shared.{
  ℕ, ◌+◌, ◌≡◌, refl, true, false, Bool-cases, inl, inr, List, [], ◌∷◌, Option, none, some,
  if◌then◌else◌, length, arith, ◌==◌,
}
use data_stream_pilot.Shared.Text.{Text, codes, str_eq}
use data_stream_pilot.Gcoap.{Endpoint, MemoState, memo_resp, memo_resp_trunc}
use data_stream_pilot.Cli.{Cli, send_to}
use data_stream_pilot.Cli.Command.{arg, method_codes, find_code, parse_options}
use data_stream_pilot.Cli.Command.Paths.{retain_path-IsRetained}
use data_stream_pilot.Cli.Command.Effects.{IsValid, notify-IsValid}
use data_stream_pilot.Cli.Response.Blocks.{next_block_frame}
use data_stream_pilot.Client.{Server, send}
use data_stream_pilot.Client.Command.{
  has_arity, is_bad_uri, begin_proxied, begin_direct, begin_request, send_and_notify, complete,
  finish, request, method_cmd, set_proxy, proxy_cmd, cli_cmd, resp_handler,
}

module _ {P W : Type 0} (srv : Server P W) where
  pub send-IsValid :
      (pdu : P) (len : ℕ) (host : Text) (c : Cli W)
      → IsValid c
      → IsValid (send srv pdu len host c).1
  unfolding send
  send-IsValid pdu len host c v = ground arith

  send_and_notify-IsValid :
      (pdu : P) (len : ℕ) (host : Text) (c : Cli W)
      → IsValid c
      → IsValid (send_and_notify srv pdu len host c)
  unfolding send_and_notify
  send_and_notify-IsValid pdu len host c v =
      let sent = send-IsValid pdu len host c v in
      ground (arith, notify-IsValid srv.gcoap (send srv pdu len host c).1 sent)

  pub resp_handler-IsValid :
      (state : MemoState) (context : ℕ) (pdu : P) (remote : Endpoint) (c : Cli W)
      → IsValid c
      → IsValid (resp_handler srv state context pdu remote c)
  unfolding resp_handler
  resp_handler-IsValid memo_resp context pdu remote c v =
      rw (next_block_frame srv.gcoap pdu (srv.gcoap.get_block2 pdu) remote context c)
        (record { retained = v.retained; counted = v.counted })
  resp_handler-IsValid memo_resp_trunc context pdu remote c v =
      rw (next_block_frame srv.gcoap pdu (srv.gcoap.get_block2 pdu) remote context c)
        (record { retained = v.retained; counted = v.counted })
  resp_handler-IsValid _ context pdu remote c v = v

  complete-IsValid :
      (host : Text) (o : Option (ℕ × P)) (c : Cli W) → IsValid c → IsValid (complete srv host o c).1
  unfolding complete
  complete-IsValid host none c v = v
  complete-IsValid host (some r) c v = send_and_notify-IsValid r.1 r.0 host c v

  begin_proxied-IsValid :
      (code_pos msg_type : ℕ) (remote : Endpoint) (uri : Option Text) (c : Cli W)
      → IsValid c
      → IsValid (begin_proxied srv code_pos msg_type remote uri c).0
  unfolding begin_proxied
  begin_proxied-IsValid code_pos msg_type remote uri c v = record {
    retained = retain_path-IsRetained _ _;
    counted = v.counted;
  }

  begin_direct-IsValid :
      (code_pos msg_type : ℕ) (uri : Option Text) (c : Cli W)
      → IsValid c
      → IsValid (begin_direct srv code_pos msg_type uri c).0
  unfolding begin_direct
  begin_direct-IsValid code_pos msg_type uri c v = record {
    retained = retain_path-IsRetained _ _;
    counted = v.counted;
  }

  finish_some-IsValid :
      (host data_text : Text) (begun : Cli W × P) (c : Cli W)
      → IsValid begun.0
      → IsValid (finish srv host data_text (some begun) c).1
  unfolding finish
  finish_some-IsValid host data_text begun c v = complete-IsValid host _ begun.0 v

  finish_named-IsValid :
      (host data_text : Text) (code_pos msg_type : ℕ) (uri : Option Text) (c : Cli W)
      (o : Option Endpoint)
      → IsValid c
      → let begun = elim o as (λ x. Option (Cli W × P)) [
        | none ↦ none
        | some remote ↦ some (begin_proxied srv code_pos msg_type remote uri c)
      ] in
        IsValid (finish srv host data_text begun c).1
  unfolding finish
  finish_named-IsValid host data_text code_pos msg_type uri c none v = v
  finish_named-IsValid host data_text code_pos msg_type uri c (some remote) v =
      finish_some-IsValid host data_text _ c
        (begin_proxied-IsValid code_pos msg_type remote uri c v)

  finish-IsValid :
      (host data_text : Text) (code_pos msg_type : ℕ) (uri : Option Text) (c : Cli W)
      → IsValid c
      → IsValid (finish srv host data_text (begin_request srv code_pos msg_type host uri c) c).1
  unfolding begin_request
  finish-IsValid host data_text code_pos msg_type uri c v =
      let named = elim (srv.name2ep host) as (λ x. Option (Cli W × P)) [
        | none ↦ none
        | some remote ↦ some (begin_proxied srv code_pos msg_type remote uri c)
      ] in
      let direct = some (begin_direct srv code_pos msg_type uri c) in
      elim c.proxied
        as (λ b. IsValid (finish srv host data_text (if b then named else direct) c).1) [
          | true ↦ finish_named-IsValid host data_text code_pos msg_type uri c (srv.name2ep host) v
          | false ↦
              finish_some-IsValid host data_text _ c
                (begin_direct-IsValid code_pos msg_type uri c v)
        ]

  request-IsValid :
      (argv : List Text) (code_pos msg_type apos : ℕ) (c : Cli W)
      → IsValid c
      → IsValid (request srv argv code_pos msg_type apos c).1
  unfolding request
  request-IsValid argv code_pos msg_type apos c v =
      let host = arg argv apos in
      let uri = if code_pos == 0 then none else some (arg argv (apos + 1)) in
      let data_text = if length argv == apos + 3 then arg argv (apos + 2) else [] in
      elim (Bool-cases (is_bad_uri uri)) [
        | inl e ↦ rw e v
        | inr e ↦ rw e (finish-IsValid host data_text code_pos msg_type uri c v)
      ]

  method_cmd-IsValid :
      (argv : List Text) (code : Option ℕ) (c : Cli W)
      → IsValid c
      → IsValid (method_cmd srv argv code c).1
  unfolding method_cmd
  method_cmd-IsValid argv none c v = v
  method_cmd-IsValid argv (some code_pos) c v =
      let (confirmable, apos) = parse_options argv code_pos in
      let msg_type = if confirmable then srv.gcoap.type_con else srv.gcoap.type_non in
      let done = request-IsValid argv code_pos msg_type apos c v in
      elim (Bool-cases (has_arity (length argv) apos code_pos)) [
        | inl e ↦ rw e done
        | inr e ↦ rw e v
      ]

  set_proxy-IsValid :
      (host : Text) (o : Option Endpoint) (c : Cli W)
      → IsValid c
      → IsValid (set_proxy srv host o c).1
  unfolding set_proxy
  set_proxy-IsValid host none c v = record { retained = v.retained; counted = v.counted }
  set_proxy-IsValid host (some remote) c v = record { retained = v.retained; counted = v.counted }

  proxy_cmd-IsValid : (argv : List Text) (c : Cli W) → IsValid c → IsValid (proxy_cmd srv argv c).1
  unfolding proxy_cmd
  proxy_cmd-IsValid argv c v =
      ground (arith, set_proxy-IsValid (arg argv 3) (srv.name2ep (arg argv 3)) c v)

  -- Every command of the second client, whatever its arguments, the names of the hosts and the
  -- network, keeps the retained path a string within its 64 bytes and the count of requests a
  -- 16-bit number.
  pub host_cmd-IsValid : (argv : List Text) (c : Cli W) → IsValid c → IsValid (cli_cmd srv argv c).1
  unfolding cli_cmd
  host_cmd-IsValid argv c v = ground (
    arith,
    proxy_cmd-IsValid argv c v,
    method_cmd-IsValid argv (find_code (arg argv 1) method_codes 0 none) c v,
  )

  -- While a proxy is set, a `proxy set` whose name is not read as an endpoint returns 1, but what
  -- the reading left in the proxy stays in use: every later request goes to it.
  host_proxy_refused :
      (cmd host other : Text) (pdu : P) (len : ℕ) (c : Cli W)
      → c.proxied ≡ true
      → srv.name2ep host ≡ none
      → let (code, c') = cli_cmd srv (cmd ∷ codes "proxy" ∷ codes "set" ∷ host ∷ []) c in
        (code ≡ 1)
        × (c' ≡ record c { proxy_remote = srv.name2ep_left host c.proxy_remote })
        × (send srv pdu len other c'
            ≡ send_to srv.gcoap pdu len (srv.name2ep_left host c.proxy_remote) c')
  unfolding cli_cmd proxy_cmd set_proxy send str_eq
  host_proxy_refused cmd host other pdu len c p h = rw (h, p) (refl, refl, refl)

-- ===== src/Cli/Command/Effects.antt =====
-- What a command changes.
use data_stream_pilot.Shared.{
  ℕ, ◌^◌, ◌<◌, ◌≡◌, List, Option, none, some, arith, if◌then◌else◌, Bool-cases, inl, inr, length,
}
use data_stream_pilot.Shared.Text.{Text}
use data_stream_pilot.Gcoap.{Gcoap}
use data_stream_pilot.Cli.{Cli, send, initial}
use data_stream_pilot.Cli.Command.{
  arg, method_codes, find_code, method_cmd, proxy_cmd, cli_cmd, begin_request, send_and_notify,
  notify, request, complete, parse_options, has_arity,
}
use data_stream_pilot.Cli.Command.Paths.{retain_path-IsRetained, IsRetained}

-- The static variables between two calls: the retained path is a string within its 64 bytes, and
-- the count is a uint16_t.
pub record IsValid {W : Type 0} (c : Cli W) : Type 0 where
  pub retained : IsRetained c.last_req_path
  pub counted : c.req_count < 2 ^ 16

pub initial-IsValid : {W : Type 0} (w : W) → IsValid (initial w)
initial-IsValid w = omega arith

module _ {P W : Type 0} (g : Gcoap P W) where
  begin_request-IsValid :
      (code_pos msg_type : ℕ) (addr port : Text) (uri : Option Text) (c : Cli W)
      → IsValid c
      → IsValid (begin_request g code_pos msg_type addr port uri c).0
  unfolding begin_request
  begin_request-IsValid code_pos msg_type addr port uri c v = elim (Bool-cases c.proxied) [
    | inl e ↦ rw e (record { retained = retain_path-IsRetained _ _; counted = v.counted })
    | inr e ↦ rw e (record { retained = retain_path-IsRetained _ _; counted = v.counted })
  ]

  -- The notification of the observers touches the network stack alone.
  pub notify_lem : (c : Cli W) → notify g c ≡ record c { world = (notify g c).world }
  unfolding notify
  notify_lem c = ground arith

  pub notify-IsValid : (c : Cli W) → IsValid c → IsValid (notify g c)
  notify-IsValid c v = rw (notify_lem c) (record { retained = v.retained; counted = v.counted })

  send-IsValid :
      (pdu : P) (len : ℕ) (addr port : Text) (c : Cli W)
      → IsValid c
      → IsValid (send g pdu len addr port c).1
  unfolding send
  send-IsValid pdu len addr port c v = ground arith

  send_and_notify-IsValid :
      (pdu : P) (len : ℕ) (addr port : Text) (c : Cli W)
      → IsValid c
      → IsValid (send_and_notify g pdu len addr port c)
  unfolding send_and_notify
  send_and_notify-IsValid pdu len addr port c v =
      let sent = send-IsValid pdu len addr port c v in
      ground (arith, notify-IsValid (send g pdu len addr port c).1 sent)

  complete-IsValid :
      (addr port : Text) (o : Option (ℕ × P)) (c : Cli W)
      → IsValid c
      → IsValid (complete g addr port o c).1
  unfolding complete
  complete-IsValid addr port none c v = v
  complete-IsValid addr port (some r) c v = send_and_notify-IsValid r.1 r.0 addr port c v

  request-IsValid :
      (argv : List Text) (code_pos msg_type apos : ℕ) (c : Cli W)
      → IsValid c
      → IsValid (request g argv code_pos msg_type apos c).1
  unfolding request
  request-IsValid argv code_pos msg_type apos c v =
      complete-IsValid _ _ _ _ (begin_request-IsValid code_pos msg_type _ _ _ c v)

  method_cmd-IsValid :
      (argv : List Text) (code : Option ℕ) (c : Cli W)
      → IsValid c
      → IsValid (method_cmd g argv code c).1
  unfolding method_cmd
  method_cmd-IsValid argv none c v = v
  method_cmd-IsValid argv (some code_pos) c v =
      let (confirmable, apos) = parse_options argv code_pos in
      let msg_type = if confirmable then g.type_con else g.type_non in
      let done = request-IsValid argv code_pos msg_type apos c v in
      elim (Bool-cases (has_arity (length argv) apos code_pos)) [
        | inl e ↦ rw e done
        | inr e ↦ rw e v
      ]

  proxy_cmd-IsValid : (argv : List Text) (c : Cli W) → IsValid c → IsValid (proxy_cmd g argv c).1
  unfolding proxy_cmd
  proxy_cmd-IsValid argv c v = ground arith

  -- Every command, whatever its arguments and whatever the network does, keeps the retained path a
  -- string within its 64 bytes and the count of requests a 16-bit number.
  pub cli_cmd-IsValid : (argv : List Text) (c : Cli W) → IsValid c → IsValid (cli_cmd g argv c).1
  unfolding cli_cmd
  cli_cmd-IsValid argv c v = ground (
    arith,
    proxy_cmd-IsValid argv c v,
    method_cmd-IsValid argv (find_code (arg argv 1) method_codes 0 none) c v,
  )

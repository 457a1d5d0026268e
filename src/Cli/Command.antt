-- ===== src/Cli/Command.antt =====
-- The command of the CoAP client (`gcoap_cli_cmd` of compute_engine/gcoap_cli.c). `argv` is a list,
-- so `argc` is its length; what is only printed is left out.
pub mod Paths
pub mod Effects
pub mod Refused
pub mod Proxy
pub mod Post
use data_stream_pilot.Shared.{
  ℕ, zero, suc, ◌+◌, ◌-◌, ◌%◌, ◌^◌, Bool, true, false, ◌&&◌, ◌||◌, List, [], ◌∷◌, ◌++◌, Option,
  none, some, ◌==◌, if◌then◌else◌, ltb, leb, length, get_or, take, replicate,
}
use data_stream_pilot.Shared.Text.{Text, codes, str_eq, snprintf, overwrite}
use data_stream_pilot.Gcoap.{
  Gcoap, Finish, finish_none, finish_payload, ObsInit, obs_ok, obs_unused, obs_err,
}
use data_stream_pilot.Cli.{Cli, last_req_path_max, zero_endpoint, to_size, parse_endpoint, send}

-- `argv[i]`, which the code reads only below argc
abbrev pub arg : List Text → ℕ → Text
arg argv i = get_or argv i []

abbrev pub method_codes : List Text
method_codes = codes "ping" ∷ codes "get" ∷ codes "post" ∷ codes "put" ∷ []

-- the loop over method_codes from index `i` on; `none` is the code_pos of -1
unfoldable pub find_code : Text → List Text → ℕ → Option ℕ → Option ℕ
find_code name [] i code_pos = code_pos
find_code name (m ∷ methods) i code_pos =
    find_code name methods (i + 1) (if str_eq name m then some i else code_pos)

-- memset, and memcpy of the `uri_len` bytes of the path, if they fit
unfoldable pub retain_path : Text → ℕ → List ℕ
retain_path uri uri_len =
    let empty = replicate last_req_path_max 0 in
    if ltb uri_len last_req_path_max then overwrite empty (take uri_len uri) else empty

-- the options of a request: whether it is confirmable, and the position of the address
unfoldable pub parse_options : List Text → ℕ → Bool × ℕ
parse_options argv code_pos =
    if ltb 2 (length argv) && str_eq (arg argv 2) (codes "-c")
    then (true, 3)
    else (code_pos == 0, 2)

-- the number of arguments that a method takes
unfoldable pub has_arity : ℕ → ℕ → ℕ → Bool
has_arity argc apos code_pos =
    (argc == apos + 2 && code_pos == 0)
    || (argc == apos + 3 && code_pos == 1)
    || (argc == apos + 4 && ltb 1 code_pos)

-- the length and the bytes of a path that may be NULL
abbrev pub path_length : Option Text → ℕ
path_length none = 0
path_length (some u) = length u

abbrev pub path_text : Option Text → Text
path_text none = []
path_text (some u) = u

module _ {P W : Type 0} (g : Gcoap P W) where
  open g use {
    type_con, type_non, format_text, printf_null, uninitialised, req_init, set_type, add_format,
    add_proxy_uri, finish, payload_len, write_payload, fmt_u16_dec, obs_init, obs_send,
  }

  -- the notification of the observers of /cli/stats, resource 0
  unfoldable pub notify : Cli W → Cli W
  notify c =
      let (status, pdu0, w) = obs_init 0 c.world in
      elim status [
        | obs_ok ↦
            let (len, pdu) = finish finish_payload (add_format format_text pdu0) in
            let text = fmt_u16_dec c.req_count in
            record c {
              world = obs_send (write_payload text pdu) ((to_size len + length text) % 2 ^ 32) 0 w;
            }
        | obs_unused ↦ record c { world = w }
        | obs_err ↦ record c { world = w }
      ]

  -- the text of the URI that a proxy is asked for
  unfoldable pub proxy_text : Text → Text → Option Text → Text
  proxy_text addr port uri =
      codes "coap://["
      ++ (addr ++ (codes "]:" ++ (port ++ elim uri [ none ↦ printf_null | some u ↦ u ])))

  -- what a request has before its payload: the new state, the packet, and the path
  unfoldable pub begin_request : ℕ → ℕ → Text → Text → Option Text → Cli W → Cli W × P
  begin_request code_pos msg_type addr port uri c =
      if c.proxied
      then (let (text, uri_len) = snprintf 64 (proxy_text addr port uri) in
          let (pdu, w) = req_init uninitialised code_pos none c.world in
          (
            record c { proxy_uri = text; last_req_path = retain_path text uri_len; world = w },
            set_type msg_type pdu,
          ))
      else (let (pdu, w) = req_init uninitialised code_pos uri c.world in
          (
            record c { last_req_path = retain_path (path_text uri) (path_length uri); world = w },
            set_type msg_type pdu,
          ))

  -- the payload: the packet and its length, or `none` where the buffer is too small
  unfoldable pub finish_request : Bool → Text → Text → P → Option (ℕ × P)
  finish_request proxied uri data_text pdu0 =
      let paylen = length data_text in
      let pdu1 = if paylen == 0 then pdu0 else add_format format_text pdu0 in
      let pdu2 = if proxied then add_proxy_uri uri pdu1 else pdu1 in
      if paylen == 0
      then (let (len, pdu) = finish finish_none pdu2 in some (to_size len, pdu))
      else (let (len, pdu) = finish finish_payload pdu2 in
          if leb paylen (payload_len pdu)
          then some ((to_size len + paylen) % 2 ^ 32, write_payload data_text pdu)
          else none)

  -- _send, and what follows it
  unfoldable pub send_and_notify : P → ℕ → Text → Text → Cli W → Cli W
  send_and_notify pdu len addr port c0 =
      let (bytes_sent, c) = send g pdu len addr port c0 in if bytes_sent == 0 then c else notify c

  -- the end of a request: a payload that does not fit ends the command with 1
  unfoldable pub complete : Text → Text → Option (ℕ × P) → Cli W → ℕ × Cli W
  complete addr port none c = (1, c)
  complete addr port (some r) c = (0, send_and_notify r.1 r.0 addr port c)

  -- the branch of a request whose arguments are as they should be
  unfoldable pub request : List Text → ℕ → ℕ → ℕ → Cli W → ℕ × Cli W
  unfolding complete
  request argv code_pos msg_type apos c0 =
      let addr = arg argv apos in
      let port = arg argv (apos + 1) in
      let uri = if code_pos == 0 then none else some (arg argv (apos + 2)) in
      let (c, pdu0) = begin_request code_pos msg_type addr port uri c0 in
      let data_text = if length argv == apos + 4 then arg argv (apos + 3) else [] in
      complete addr port (finish_request c.proxied c.proxy_uri data_text pdu0) c

  -- a method, by its position in method_codes
  unfoldable pub method_cmd : List Text → Option ℕ → Cli W → ℕ × Cli W
  method_cmd argv none c = (1, c)
  method_cmd argv (some code_pos) c =
      let (confirmable, apos) = parse_options argv code_pos in
      if has_arity (length argv) apos code_pos
      then request argv code_pos (if confirmable then type_con else type_non) apos c
      else (1, c)

  unfoldable pub proxy_cmd : List Text → Cli W → ℕ × Cli W
  proxy_cmd argv c =
      if length argv == 5 && str_eq (arg argv 2) (codes "set")
      then (let (parsed, remote) =
            parse_endpoint g c.world c.proxy_remote (arg argv 3) (arg argv 4) in
          if parsed
          then (0, record c { proxy_remote = remote; proxied = true })
          else (1, record c { proxy_remote = remote }))
      else if length argv == 3 && str_eq (arg argv 2) (codes "unset")
      then (0, record c { proxy_remote = zero_endpoint; proxied = false })
      else (1, c)

  -- `gcoap_cli_cmd`
  unfoldable pub cli_cmd : List Text → Cli W → ℕ × Cli W
  cli_cmd argv c =
      if length argv == 1
      then (1, c)
      else if str_eq (arg argv 1) (codes "info")
      then (0, c)
      else if str_eq (arg argv 1) (codes "proxy")
      then proxy_cmd argv c
      else method_cmd argv (find_code (arg argv 1) method_codes 0 none) c

-- ===== src/Cli/Server.antt =====
-- The server side of compute_engine/gcoap_cli.c: the handlers of its two resources, and the links
-- that describe them.
pub mod Stats
use data_stream_pilot.Shared.{
  ℕ, zero, suc, ◌+◌, ◌-◌, ◌%◌, ◌^◌, List, [], ◌∷◌, ◌++◌, Option, none, some, if◌then◌else◌, leb,
  ltb, length, take,
}
use data_stream_pilot.Shared.Int.{ℤ, pos, negsuc, ltb_ℤ}
use data_stream_pilot.Shared.Text.{Text, codes, c_string}
use data_stream_pilot.Shared.Decimal.{strtoul}
use data_stream_pilot.Gcoap.{Gcoap, finish_payload, MethodFlag, flag_get, flag_put, flag_other}
use data_stream_pilot.Cli.{Cli, to_size}

-- `_link_params`; `none` is the NULL at its end
abbrev pub link_params : ℕ → Option Text
link_params zero = some (codes ";ct=0;rt=\"count\";obs")
link_params (suc _) = none

-- the parameters behind a link, where there are any and they fit
abbrev pub add_params : ℤ → Text → Option Text → ℕ → ℤ × Text
add_params (pos (suc res)) text (some params) maxlen =
    if ltb (length params) ((maxlen + 2 ^ 32 - suc res) % 2 ^ 32)
    then (pos (suc res + length params), text ++ params)
    else (pos (suc res), text)
add_params res text params maxlen = (res, text)

module _ {P W : Type 0} (g : Gcoap P W) where
  open g use {
    format_text, code_content, code_changed, code_bad_request, code_internal_error, board_name,
    resp_init, response, method_flag, add_format, finish, payload_len, payload, write_payload,
    fmt_u16_dec, encode_link as gcoap_encode_link,
  }

  -- the response to a GET: its length and packet
  unfoldable pub stats_get : P → ℕ → ℤ × P
  stats_get pdu0 req_count =
      let (len, pdu) =
        finish finish_payload (add_format format_text (resp_init code_content pdu0)) in
      let text = fmt_u16_dec req_count in
      (pos ((to_size len + length text) % 2 ^ 32), write_payload text pdu)

  -- the count that the payload of a PUT stands for; the copy of six bytes ends in a NUL
  abbrev pub payload_count : List ℕ → ℕ
  payload_count bytes = strtoul (c_string (bytes ++ (0 ∷ []))) % 2 ^ 16

  -- `_stats_handler`, by its method flag
  unfoldable pub stats_method : MethodFlag → P → Cli W → (ℤ × P) × Cli W
  unfolding stats_get
  stats_method flag_get pdu c = (stats_get pdu c.req_count, c)
  stats_method flag_put pdu c =
      if leb (payload_len pdu) 5
      then (
        response code_changed pdu,
        record c { req_count = payload_count (take (payload_len pdu) (payload pdu)) },
      )
      else (response code_bad_request pdu, c)
  stats_method flag_other pdu c = ((pos 0, pdu), c)

  unfoldable pub stats_handler : P → Cli W → (ℤ × P) × Cli W
  unfolding stats_method
  stats_handler pdu c = stats_method (method_flag pdu) pdu c

  unfoldable pub riot_board_handler : P → ℤ × P
  riot_board_handler pdu0 =
      let (len, pdu) =
        finish finish_payload (add_format format_text (resp_init code_content pdu0)) in
      if leb (length board_name) (payload_len pdu)
      then (pos ((to_size len + length board_name) % 2 ^ 32), write_payload board_name pdu)
      else response code_internal_error pdu

  -- `_encode_link` of the resource at `link_pos`: the value returned, and what is then in the
  -- buffer. `maxlen - res` is a subtraction of size_t; a positive `res` is at most `maxlen`.
  unfoldable pub encode_link : ℕ → ℕ → ℤ × Text
  encode_link link_pos maxlen =
      let (res, text) = gcoap_encode_link link_pos maxlen in
      add_params res text (link_params link_pos) maxlen

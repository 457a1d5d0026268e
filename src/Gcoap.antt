-- ===== src/Gcoap.antt =====
-- RIOT's CoAP library, network interfaces and addresses, as the CoAP client calls them: parameters
-- of the model, with no definition here.
pub mod Recording
use data_stream_pilot.Shared.{ℕ, Bool, List, Option}
use data_stream_pilot.Shared.Int.{ℤ}
use data_stream_pilot.Shared.Text.{Text}

-- `sock_udp_ep_t`
pub record Endpoint : Type 0 where
  pub family : ℕ
  pub netif : ℕ
  pub addr : List ℕ
  pub port : ℕ

-- `coap_block1_t`
pub record Block : Type 0 where
  pub offset : ℕ
  pub blknum : ℕ
  pub szx : ℕ
  pub more : Bool

-- the last argument of coap_opt_finish
pub data Finish : Type 0 where
  finish_none finish_payload : Finish

-- what gcoap_obs_init reports
pub data ObsInit : Type 0 where
  obs_ok obs_unused obs_err : ObsInit

-- the state of a request memo
pub data MemoState : Type 0 where
  memo_unused memo_retransmit memo_wait memo_resp memo_timeout memo_err memo_resp_trunc : MemoState

-- the method flag of a request that a handler sees
pub data MethodFlag : Type 0 where
  flag_get flag_put flag_other : MethodFlag

-- `P` is a packet with its buffer, `W` the state of the network stack.
pub record Gcoap (P W : Type 0) : Type 0 where
  -- constants
  pub af_inet6 : ℕ
  pub any_netif : ℕ
  pub type_con : ℕ
  pub type_non : ℕ
  pub type_ack : ℕ
  pub format_text : ℕ
  pub method_get : ℕ
  pub code_content : ℕ
  pub code_changed : ℕ
  pub code_bad_request : ℕ
  pub code_internal_error : ℕ
  pub board_name : Text
  -- what printf writes for a null `%s`, which C leaves undefined
  pub printf_null : Text
  -- interfaces and addresses
  pub netif_numof : W → ℕ
  pub netif_pid : W → ℕ
  pub netif_exists : W → ℤ → Bool
  pub split_iface : Text → Text × Option Text
  pub addr_from_str : Text → Option (List ℕ)
  pub is_link_local : List ℕ → Bool
  -- packets
  pub uninitialised : P
  pub req_init : P → ℕ → Option Text → W → P × W
  pub resp_init : ℕ → P → P
  pub response : ℕ → P → ℤ × P
  pub set_type : ℕ → P → P
  pub get_type : P → ℕ
  pub method_flag : P → MethodFlag
  pub add_format : ℕ → P → P
  pub add_proxy_uri : Text → P → P
  pub add_block2_control : Block → P → P
  pub get_block2 : P → Option Block
  pub finish : Finish → P → ℤ × P
  pub payload_len : P → ℕ
  pub payload : P → List ℕ
  pub write_payload : List ℕ → P → P
  pub fmt_u16_dec : ℕ → Text
  -- the network; a request goes out with the context that its response is to carry (0 is NULL)
  pub req_send : P → ℕ → Endpoint → ℕ → W → ℕ × W
  pub obs_init : ℕ → W → ObsInit × P × W
  pub obs_send : P → ℕ → ℕ → W → W
  -- the link of resource `link_pos` in a buffer of `maxlen` bytes: the value returned and the bytes
  pub encode_link : ℕ → ℕ → ℤ × Text

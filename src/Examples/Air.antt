-- ===== src/Examples/Air.antt =====
-- A small network that an observer sees, for the examples.
use data_stream_pilot.Shared.{
  ℕ, ◌+◌, refl, false, ◌==◌, if◌then◌else◌, length, List, [], ◌∷◌, ◌++◌, none, some,
}
use data_stream_pilot.Shared.Int.{pos}
use data_stream_pilot.Shared.Text.{Text, codes, str_eq}
use data_stream_pilot.Gcoap.{Gcoap, obs_unused}
use data_stream_pilot.Gcoap.Recording.{Recording}
use data_stream_pilot.Client.{Server}
use data_stream_pilot.Examples.Net.{Packet, no_packet, server_text, server_addr, flag_of}

-- the refusals that the broker has left, and the bodies of the requests so far
pub record Air : Type 0 where
  pub refusals : ℕ
  pub seen : List Text

abbrev pub radio : Gcoap Packet Air
radio = record {
  af_inet6 = 10;
  any_netif = 0;
  type_con = 0;
  type_non = 1;
  type_ack = 2;
  format_text = 0;
  method_get = 1;
  code_content = 69;
  code_changed = 68;
  code_bad_request = 128;
  code_internal_error = 160;
  board_name = codes "native";
  printf_null = codes "(null)";
  netif_numof = λ w. 1;
  netif_pid = λ w. 6;
  netif_exists = λ w n. false;
  split_iface = λ s. (s, none);
  addr_from_str = λ s. if str_eq s server_text then some server_addr else none;
  is_link_local = λ a. false;
  uninitialised = no_packet;
  req_init = λ p m path w. (record { code = m; kind = 0; path = path; block = none; body = [] }, w);
  resp_init = λ code p. record p { code = code };
  response = λ code p. (pos 4, record p { code = code });
  set_type = λ t p. record p { kind = t };
  get_type = λ p. p.kind;
  method_flag = λ p. flag_of p.code;
  add_format = λ f p. p;
  add_proxy_uri = λ uri p. record p { path = some uri };
  add_block2_control = λ b p. record p { block = some b };
  get_block2 = λ p. p.block;
  finish = λ f p. (pos 16, record p { kind = 7 });
  payload_len = λ p. if p.kind == 7 then 128 else length p.body;
  payload = λ p. p.body;
  write_payload = λ bytes p. record p { body = bytes };
  fmt_u16_dec = λ n. [];
  req_send = λ p len remote context w. (len + 1, record w { seen = w.seen ++ (p.body ∷ []) });
  obs_init = λ i w. (obs_unused, no_packet, w);
  obs_send = λ p len i w. w;
  encode_link = λ i maxlen. (pos 6, codes "</cli>");
}

abbrev pub recording : Recording radio
recording = record {
  log = λ w. w.seen;
  body = λ p. p.body;
  writes = λ bytes p. refl;
  begins = λ p m path w. refl;
  sends = λ p len remote context w. refl;
  observes = λ i w. refl;
  notifies = λ p len i w. refl;
}

abbrev pub on_air : Server Packet Air
on_air = record {
  gcoap = radio;
  server_ip = server_text;
  server_name = codes "[2001:db8::1]:5683";
  method_post = 2;
  default_port = 5683;
  name2ep = λ s. some (record { family = 10; netif = 0; addr = server_addr; port = 0 });
  name2ep_left = λ s e. e;
  addr_text = λ e. server_text;
}

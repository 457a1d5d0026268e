-- ===== src/Examples/Net.antt =====
-- A small network and a small sensor, for the examples.
use data_stream_pilot.Shared.{
  ℕ, ◌+◌, ◌≤◌, refl, arith, ◌==◌, ◌%◌, false, List, [], ◌∷◌, Option, none, some, if◌then◌else◌,
  length, replicate,
}
use data_stream_pilot.Shared.Int.{pos, negsuc, eqb_ℤ}
use data_stream_pilot.Shared.Text.{Text, codes, str_eq}
use data_stream_pilot.Gcoap.{Gcoap, Block, obs_unused, MethodFlag, flag_get, flag_put, flag_other}
use data_stream_pilot.Cli.{Cli, initial}
use data_stream_pilot.Client.{Server}
use data_stream_pilot.Client.Requests.{IsOpen, IsWorking}
use data_stream_pilot.Mqtt.{Emcute}
use data_stream_pilot.Driver.{Lps, Board}
use data_stream_pilot.Noise.{Rand}

-- a packet: its method or code, its type, its path, its block, its payload
pub record Packet : Type 0 where
  pub code : ℕ
  pub kind : ℕ
  pub path : Option Text
  pub block : Option Block
  pub body : List ℕ

abbrev pub no_packet : Packet
no_packet = record { code = 0; kind = 0; path = none; block = none; body = [] }

abbrev pub flag_of : ℕ → MethodFlag
flag_of code = if code == 1 then flag_get else if code == 3 then flag_put else flag_other

abbrev pub server_text : Text
server_text = codes "2001:db8::1"

abbrev pub server_addr : List ℕ
server_addr = replicate 16 1

-- the state of the network is the list of the ports that requests went to
abbrev pub net : Gcoap Packet (List ℕ)
net = record {
  af_inet6 = 10;
  any_netif = 0;
  type_con = 0;
  type_non = 1;
  type_ack = 2;
  format_text = 0;
  method_get = 1;
  code_content = 69;
  code_changed = 68;
  code_bad_request = 128;
  code_internal_error = 160;
  board_name = codes "native";
  printf_null = codes "(null)";
  netif_numof = λ w. 1;
  netif_pid = λ w. 6;
  netif_exists = λ w n. eqb_ℤ n (pos 6);
  split_iface = λ s. (s, none);
  addr_from_str = λ s. if str_eq s server_text then some server_addr else none;
  is_link_local = λ a. false;
  uninitialised = no_packet;
  req_init = λ p m path w. (record { code = m; kind = 0; path = path; block = none; body = [] }, w);
  resp_init = λ code p. record p { code = code };
  response = λ code p. (pos 4, record p { code = code });
  set_type = λ t p. record p { kind = t };
  get_type = λ p. p.kind;
  method_flag = λ p. flag_of p.code;
  add_format = λ f p. p;
  add_proxy_uri = λ uri p. record p { path = some uri };
  add_block2_control = λ b p. record p { block = some b };
  get_block2 = λ p. p.block;
  finish = λ f p. (pos 16, p);
  payload_len = λ p. if p.kind == 1 then 100 else length p.body;
  payload = λ p. p.body;
  write_payload = λ bytes p. record p { body = bytes };
  fmt_u16_dec = λ n. [];
  req_send = λ p len remote context w. (len, remote.port ∷ w);
  obs_init = λ i w. (obs_unused, no_packet, w);
  obs_send = λ p len i w. w;
  encode_link = λ i maxlen. (pos 6, codes "</cli>");
}

abbrev pub started : Cli (List ℕ)
started = initial []

-- a generator that counts
abbrev pub counting : Rand ℕ
counting = record { rand = λ n. (n, n + 1); rand_max = 32_767 }

-- a sensor that warms up from 20.00 °C, and whose boot bit is down
abbrev pub lps : Lps ℕ
lps = record {
  ok = pos 0;
  err_i2c = pos 2;
  ctrl_reg2 = 33;
  res_conf = 16;
  init = λ v. (pos 0, v);
  enable = λ v. (pos 0, v);
  read_temp = λ v. (pos 0, pos (v % 8_500), v + 1);
  i2c_write_reg = λ reg value v. (pos 0, v);
  i2c_read_reg = λ reg v. (pos 0, 0, v);
}

abbrev pub board : Board ℕ
board = record { device = 2_000; held = false; time = 0; unlocked = 0 }

abbrev pub dead_bus : Lps ℕ
dead_bus = record lps { i2c_write_reg = λ reg value v. (negsuc 5, v) }

abbrev pub server : Server Packet (List ℕ)
server = record {
  gcoap = net;
  server_ip = server_text;
  server_name = codes "[2001:db8::1]:5683";
  method_post = 2;
  default_port = 5683;
  name2ep = λ s. some (record { family = 10; netif = 0; addr = server_addr; port = 0 });
  name2ep_left = λ s e. e;
  addr_text = λ e. server_text;
}

-- a network that takes every packet, and packets with room for 128 bytes once they are finished
abbrev pub working : Server Packet (List ℕ)
working = record server {
  gcoap = record net {
    finish = λ f p. (pos 16, record p { kind = 7 });
    payload_len = λ p. if p.kind == 7 then 128 else length p.body;
    req_send = λ p len remote context w. (len + 1, remote.port ∷ w);
  };
}

pub working-IsOpen : IsOpen working
unfolding str_eq
working-IsOpen = record {
  parsed = (server_addr, refl);
  named = (record { family = 10; netif = 0; addr = server_addr; port = 0 }, refl);
  taken = λ pdu len remote context w. ground arith;
}

pub working-IsWorking : (uri : Text) (room : ℕ) → room ≤ 128 → IsWorking working uri room
working-IsWorking uri room h = record {
  opened = working-IsOpen;
  finished = λ w. refl;
  roomy = λ w. h;
}

-- a broker that accepts all, and numbers the topics
abbrev pub em : Emcute ℕ
em = record {
  ok = pos 0;
  qos_0 = 0;
  get_qos = λ s. 0;
  with_flags = λ a b. a;
  sub = λ topic flags w. (pos 0, w + 1, w + 1);
  unsub = λ i w. (pos 0, w);
}

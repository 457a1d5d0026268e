-- ===== src/Station/Race.antt =====
-- The command of the shell, with requests of the thread, which has the higher priority, between two
-- of its steps: the count and the retained path are read and written without a lock.
use data_stream_pilot.Shared.{
  ℕ, zero, suc, ◌+◌, ◌%◌, ◌^◌, ◌≡◌, ◌≢◌, ◌≤◌, refl, ap, ◌∙◌, true, false, List, [], ◌∷◌, ◌++◌, some,
  arith, length, take, drop, ltb, All,
}
use data_stream_pilot.Shared.Text.{Text, c_string, overwrite}
use data_stream_pilot.Gcoap.{Endpoint, Block, finish_none, memo_resp}
use data_stream_pilot.Cli.{Cli, to_size}
use data_stream_pilot.Cli.Response.Blocks.{next_packet, next_block_asks}
use data_stream_pilot.Client.{Resource, temp, time, core, board, hello, riot_v, sha_256, Server}
use data_stream_pilot.Client.Requests.{IsOpen, get_at_counted}
use data_stream_pilot.Client.Command
use data_stream_pilot.Client.Steps.{cleared, sent, advance, shell_request}
use data_stream_pilot.Station.{
  get_resource_path, get_resource_path_len, send_coap_get_request, resp_handler,
}
use data_stream_pilot.Station.Late.{get-path}

c_string-append : (xs ys : Text) → All (λ x. x ≢ 0) xs → c_string (xs ++ ys) ≡ xs ++ c_string ys
unfolding c_string
c_string-append [] ys h = refl
c_string-append (x ∷ xs) ys h = ground (arith, c_string-append xs ys h.1)

c_string-drop :
    (n : ℕ) (xs : List ℕ) → n ≤ length (c_string xs) → c_string (drop n xs) ≡ drop n (c_string xs)
unfolding c_string
c_string-drop zero xs h = refl
c_string-drop (suc n) [] h = refl
c_string-drop (suc n) (x ∷ xs) h = ground (arith, c_string-drop n xs)

-- The paths of the table fit.
path_short : (r : Resource) → length (get_resource_path r) ≤ 17
unfolding get_resource_path
path_short temp = omega arith
path_short time = omega arith
path_short core = omega arith
path_short board = omega arith
path_short hello = omega arith
path_short riot_v = omega arith
path_short sha_256 = omega arith

take_append : (xs ys : Text) → take (length xs) (xs ++ ys) ≡ xs
take_append [] ys = refl
take_append (x ∷ xs) ys = ap (λ zs. x ∷ zs) (take_append xs ys)

append-ne : (xs ys : Text) → xs ≢ [] → xs ++ ys ≢ []
append-ne [] ys h = absurd (h refl)
append-ne (x ∷ xs) ys h = λ e. cc

module _ {P W : Type 0} (srv : Server P W) where
  -- GETs of the thread, one after the other
  abbrev pub get_all : List Resource → Cli W → Cli W
  get_all [] c = c
  get_all (r ∷ rs) c = get_all rs (send_coap_get_request srv r c)

  get_all_counted :
      (works : IsOpen srv) (rs : List Resource) (c : Cli W)
      → (get_all rs c).req_count % 2 ^ 16 ≡ (c.req_count + length rs) % 2 ^ 16
  unfolding send_coap_get_request
  get_all_counted works [] c = omega arith
  get_all_counted works (r ∷ rs) c =
      let rest = get_all_counted works rs (send_coap_get_request srv r c) in
      let one = get_at_counted srv works (get_resource_path r) (get_resource_path_len r) c in
      omega (arith, rest, one)

  -- A fault: the command has sent its request and has read the count. However many requests the
  -- thread then makes and counts, the command writes the count it has read and one more: all those
  -- of the thread are lost.
  pub lost_updates :
      (works : IsOpen srv) (host uri : Text) (bytes_sent : ℕ) (rs : List Resource) (c : Cli W)
      → bytes_sent ≢ 0
      → let q = shell_request srv.gcoap.type_non host uri in
        let (phase, read) = advance srv q (sent bytes_sent) c in
        let others = get_all rs read in
        (others.req_count % 2 ^ 16 ≡ (c.req_count + length rs) % 2 ^ 16)
        × ((advance srv q phase others).1.req_count ≡ (c.req_count + 1) % 2 ^ 16)
  unfolding advance
  lost_updates works host uri bytes_sent rs c ne =
      let some_sent : ltb 0 bytes_sent ≡ true = ground (arith, ne) in
      rw some_sent (get_all_counted works rs c, refl)

  -- A fault: between the memset and the memcpy of the command the thread asks for a resource. The
  -- command copies its path, without a NUL, over that of the thread: where it is not longer, the path
  -- that is retained starts with that of the command and ends with the rest of that of the thread,
  -- and it is this path of which the next block of a response is asked for.
  pub mixed_path :
      (host uri : Text) (r : Resource) (pdu0 : P) (c : Cli W) (addr : List ℕ) (context : ℕ)
      (pdu : P) (remote : Endpoint) (block : Block)
      → All (λ x. x ≢ 0) uri
      → uri ≢ []
      → length uri ≤ length (get_resource_path r)
      → srv.gcoap.addr_from_str srv.server_ip ≡ some addr
      → c.proxied ≡ false
      → srv.gcoap.get_block2 pdu ≡ some block
      → block.more ≡ true
      → let q = shell_request srv.gcoap.type_non host uri in
        let others = send_coap_get_request srv r c in
        let c' = (advance srv q (cleared pdu0) others).1 in
        let mixed = uri ++ drop (length uri) (get_resource_path r) in
        let w = (srv.gcoap.req_init pdu srv.gcoap.method_get (some mixed) c'.world).1 in
        let (len, next) =
          srv.gcoap.finish finish_none
            (next_packet srv.gcoap mixed pdu block ((block.blknum + 1) % 2 ^ 32) c'.world) in
        (c_string c'.last_req_path ≡ mixed)
        × (resp_handler srv memo_resp context pdu remote c'
            ≡ record c' { world = (srv.gcoap.req_send next (to_size len) remote context w).1 })
  unfolding resp_handler Command.resp_handler advance
  mixed_path host uri r pdu0 c addr context pdu remote block nz ne short a direct b m =
      let q = shell_request srv.gcoap.type_non host uri in
      let others = send_coap_get_request srv r c in
      let c' = (advance srv q (cleared pdu0) others).1 in
      let mixed = uri ++ drop (length uri) (get_resource_path r) in
      let (path, proxied) = get-path srv r c addr a in
      let bound = path_short r in
      let fits : ltb (length uri) 64 ≡ true = ground (arith, bound, short) in
      let buffer : c'.last_req_path ≡ overwrite others.last_req_path uri =
        rw (fits, take_append uri (0 ∷ [])) refl in
      let rest = c_string-drop (length uri) others.last_req_path (rw path short) in
      let kept : c_string c'.last_req_path ≡ mixed =
        ap c_string buffer
        ∙ c_string-append uri (drop (length uri) others.last_req_path) nz
        ∙ ap (λ t. uri ++ t) (rest ∙ ap (drop (length uri)) path) in
      (
        kept,
        rw b (
            next_block_asks srv.gcoap mixed context pdu block remote c' kept
              (append-ne uri (drop (length uri) (get_resource_path r)) ne) (proxied ∙ direct) m),
      )

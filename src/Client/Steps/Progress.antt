-- ===== src/Client/Steps/Progress.antt =====
-- A step of a request: what is left of it, and whether it is counted.
use mathlib.Core.Path.{subst}
use data_stream_pilot.Shared.{
  ℕ, ◌+◌, ◌*◌, ◌%◌, ◌^◌, ◌≤◌, ◌≡◌, ◌≢◌, refl, sym, true, Bool-cases, ◌⊎◌, inl, inr, List, [], ◌∷◌,
  some, arith, length, ltb, leb,
}
use data_stream_pilot.Shared.Int.{ℤ, pos, ltb_ℤ}
use data_stream_pilot.Shared.Text.{Text}
use data_stream_pilot.Gcoap.{Endpoint, finish_payload}
use data_stream_pilot.Cli.{Cli, to_size}
use data_stream_pilot.Client.{Server, with_port}
use data_stream_pilot.Client.Requests.{IsWorking, packet_of}
use data_stream_pilot.Client.Steps.{
  Phase, called, built, cleared, retained, ready, sent, counting, counted, returned, advance,
  target, finish_packet, build, post_request,
}
use data_stream_pilot.Client.Steps.Thread.{turn}

module _ {P : Type 0} where
  -- steps that a request has left, the return counted
  abbrev pub rank : Phase P → ℕ
  rank called = 9
  rank (built pdu) = 8
  rank (cleared pdu) = 7
  rank (retained pdu) = 6
  rank (ready pdu len) = 5
  rank (sent n) = 4
  rank (counting n) = 3
  rank counted = 2
  rank (returned r) = 1

  -- requests that are still to count
  abbrev pub uncounted : Phase P → ℕ
  uncounted counted = 0
  uncounted (returned r) = 0
  uncounted _ = 1

  abbrev pub left : List Text → Phase P → ℕ
  left [] phase = 0
  left (msg ∷ rest) phase = rank phase + 9 * length rest

  abbrev pub owed : List Text → Phase P → ℕ
  owed [] phase = 0
  owed (msg ∷ rest) phase = uncounted phase + length rest

  pub returned_cases : (phase : Phase P) → (2 ≤ rank phase) ⊎ ((r : ℤ) × (phase ≡ returned r))
  returned_cases called = inl (omega arith)
  returned_cases (built pdu) = inl (omega arith)
  returned_cases (cleared pdu) = inl (omega arith)
  returned_cases (retained pdu) = inl (omega arith)
  returned_cases (ready pdu len) = inl (omega arith)
  returned_cases (sent k) = inl (omega arith)
  returned_cases (counting k) = inl (omega arith)
  returned_cases counted = inl (omega arith)
  returned_cases (returned r) = inr (r, refl)

module _ {P W : Type 0} (srv : Server P W) (uri : Text) where
  -- a packet of a POST to `uri` that is not finished
  abbrev pub Begun : P → Type 0
  Begun pdu = (w : W) × (srv.gcoap.add_format srv.gcoap.format_text pdu ≡ packet_of srv uri w)

  -- what the thread has read is what is there, and its packet is one of a POST
  abbrev pub Agrees : Phase P → Cli W → Type 0
  Agrees (built pdu) c = Begun pdu
  Agrees (cleared pdu) c = Begun pdu
  Agrees (retained pdu) c = Begun pdu
  Agrees (sent n) c = n ≢ 0
  Agrees (counting n) c = n ≡ c.req_count
  Agrees _ c = Unit

module _ {P W : Type 0} (srv : Server P W) {uri : Text} {room : ℕ} (works : IsWorking srv uri room)
    (uri_len : ℕ) where
  open works use {opened, finished, roomy}
  open opened use {parsed, named, taken}

  pub target-some : (c : Cli W) → (remote : Endpoint) × (target srv srv.server_name c ≡ some remote)
  unfolding target
  target-some c = elim (Bool-cases c.proxied) [
    | inl e ↦ (c.proxy_remote, rw e refl)
    | inr e ↦ (with_port srv named.0, rw (e, named.1) refl)
  ]

  -- A packet is finished and has its text.
  pub finish_packet_lem :
      (msg : Text) (pdu0 : P)
      → length msg ≤ room
      → Begun srv uri pdu0
      → (pdu : P) × (len : ℕ) × (finish_packet srv (post_request srv uri uri_len msg) pdu0
          ≡ ready (srv.gcoap.write_payload msg pdu) len)
  unfolding finish_packet
  finish_packet_lem msg pdu0 h (w, same) =
      let typed = srv.gcoap.add_format srv.gcoap.format_text pdu0 in
      let (len, pdu) = srv.gcoap.finish finish_payload typed in
      let room_enough : room ≤ srv.gcoap.payload_len (srv.gcoap.finish finish_payload typed).1 =
        rw same (roomy w) in
      let long : ltb_ℤ (pos 0) (srv.gcoap.finish finish_payload typed).0 ≡ true =
        rw same (finished w) in
      let fits : leb (length msg) (srv.gcoap.payload_len pdu) ≡ true = ground arith in
      (pdu, (to_size len + length msg) % 2 ^ 32, rw (fits, long) refl)

  -- from a phase and a client to the next ones: a step less is left, and what is counted and what
  -- is still to count are as many as before
  abbrev Advances : Phase P → Cli W → Phase P × Cli W → Type 0
  Advances phase c (phase', c') =
      Agrees srv uri phase' c'
      × (rank phase' + 1 ≡ rank phase)
      × ((c'.req_count + uncounted phase') % 2 ^ 16 ≡ (c.req_count + uncounted phase) % 2 ^ 16)

  pub advance_lem :
      (msg : Text) (phase : Phase P) (c : Cli W)
      → length msg ≤ room
      → Agrees srv uri phase c
      → 2 ≤ rank phase
      → Advances phase c (advance srv (post_request srv uri uri_len msg) phase c)
  unfolding advance build
  advance_lem msg called c h a n =
      let e : advance srv (post_request srv uri uri_len msg) called c
          ≡ build srv (post_request srv uri uri_len msg) c =
        rw (parsed.1, advance) refl in
      subst (Advances called c) (sym e) ((c.world, refl), refl, refl)
  advance_lem msg (built pdu) c h a n = (a, refl, refl)
  advance_lem msg (cleared pdu) c h a n = (a, refl, refl)
  advance_lem msg (retained pdu) c h a n =
      let (packet, len, e) = finish_packet_lem msg pdu h a in
      subst (λ next. Advances (retained pdu) c (next, c)) (sym e) (tt, refl, refl)
  advance_lem msg (ready pdu len) c h a n =
      let (remote, e) = target-some c in
      let q = post_request srv uri uri_len msg in
      let (bytes_sent, w) = srv.gcoap.req_send pdu len remote 0 c.world in
      let sends : advance srv q (ready pdu len) c ≡ (sent bytes_sent, record c { world = w }) =
        rw (e, advance) refl in
      subst (Advances (ready pdu len) c) (sym sends) (taken pdu len remote 0 c.world, refl, refl)
  advance_lem msg (sent k) c h a n =
      let some_sent : ltb 0 k ≡ true = ground (arith, a) in
      let q = post_request srv uri uri_len msg in
      let counts : advance srv q (sent k) c ≡ (counting c.req_count, c) =
        rw (some_sent, advance) refl in
      subst (Advances (sent k) c) (sym counts) (refl, refl, refl)
  advance_lem msg (counting k) c h a n = (tt, refl, omega (arith, a))
  advance_lem msg counted c h a n = (tt, refl, refl)
  advance_lem msg (returned r) c h a n = omega (arith, n)

  pub turn_lem :
      (msg : Text) (rest : List Text) (phase : Phase P) (c : Cli W)
      → 2 ≤ rank phase
      → let (phase', c') = advance srv (post_request srv uri uri_len msg) phase c in
        turn srv uri uri_len msg rest phase c
        ≡ record { todo = msg ∷ rest; phase = phase'; cli = c' }
  unfolding turn
  turn_lem msg rest called c n = refl
  turn_lem msg rest (built pdu) c n = refl
  turn_lem msg rest (cleared pdu) c n = refl
  turn_lem msg rest (retained pdu) c n = refl
  turn_lem msg rest (ready pdu len) c n = refl
  turn_lem msg rest (sent k) c n = refl
  turn_lem msg rest (counting k) c n = refl
  turn_lem msg rest counted c n = refl
  turn_lem msg rest (returned r) c n = ground (arith, n)

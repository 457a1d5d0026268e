-- ===== src/Client/Steps/Sent.antt =====
-- Whatever comes in between its steps, the thread makes and counts its requests.
use mathlib.Core.Path.{subst}
use data_stream_pilot.Shared.{
  ℕ, ◌+◌, ◌*◌, ◌-◌, ◌%◌, ◌^◌, ◌≤◌, ◌≡◌, refl, sym, ap, ◌∙◌, inl, inr, List, [], ◌∷◌, arith, length,
  All,
}
use data_stream_pilot.Shared.Int.{ℤ}
use data_stream_pilot.Shared.Text.{Text}
use data_stream_pilot.Gcoap.{MemoState, Endpoint}
use data_stream_pilot.Cli.{Cli}
use data_stream_pilot.Client.{Server}
use data_stream_pilot.Client.Command
use data_stream_pilot.Client.Requests.{IsWorking}
use data_stream_pilot.Client.Steps.{
  Phase, called, built, cleared, retained, ready, sent, counting, counted, returned,
}
use data_stream_pilot.Client.Steps.Thread.{
  Thread, Event, tick, answered, ticks, answered_frame, turn, tick_thread, step, run,
}
use data_stream_pilot.Client.Steps.Progress.{
  rank, left, owed, Agrees, advance_lem, turn_lem, returned_cases,
}

module _ {P W : Type 0} (srv : Server P W) {uri : Text} {room : ℕ} (works : IsWorking srv uri room)
    (uri_len : ℕ) where
  left-called : (msgs : List Text) → left {P = P} msgs called ≡ 9 * length msgs
  left-called [] = refl
  left-called (msg ∷ rest) = omega arith

  owed-called : (msgs : List Text) → owed {P = P} msgs called ≡ length msgs
  owed-called [] = refl
  owed-called (msg ∷ rest) = omega arith

  abbrev Stands : Thread P W → Type 0
  Stands t = All (λ msg. length msg ≤ room) t.todo × Agrees srv uri t.phase t.cli

  -- from a thread to the next one, with `n` steps less to make
  abbrev Follows : ℕ → Thread P W → Thread P W → Type 0
  Follows n t t' =
      Stands t'
      × (left t'.todo t'.phase ≡ left t.todo t.phase - n)
      × ((t'.cli.req_count + owed t'.todo t'.phase) % 2 ^ 16
          ≡ (t.cli.req_count + owed t.todo t.phase) % 2 ^ 16)

  returned-Follows :
      (msg : Text) (rest : List Text) (r : ℤ) (c : Cli W)
      → All (λ text. length text ≤ room) rest
      → Follows 1
          (record { todo = msg ∷ rest; phase = returned r; cli = c })
          (turn srv uri uri_len msg rest (returned r) c)
  unfolding turn
  returned-Follows msg rest r c fit =
      let fewer = left-called rest in
      let owes = owed-called rest in ((fit, tt), omega (arith, fewer), omega (arith, owes))

  turn-Follows :
      (msg : Text) (rest : List Text) (phase : Phase P) (c : Cli W)
      → Stands (record { todo = msg ∷ rest; phase = phase; cli = c })
      → Follows 1
          (record { todo = msg ∷ rest; phase = phase; cli = c })
          (turn srv uri uri_len msg rest phase c)
  turn-Follows msg rest phase c ((fits, all_fit), agrees) = elim (returned_cases phase) [
    | inl n ↦
        let (agrees', fewer, owes) = advance_lem srv works uri_len msg phase c fits agrees n in
        subst (Follows 1 (record { todo = msg ∷ rest; phase = phase; cli = c }))
          (sym (turn_lem srv works uri_len msg rest phase c n))
          (((fits, all_fit), agrees'), omega (arith, fewer), omega (arith, owes))
    | inr (r, e) ↦
        let t : Phase P → Thread P W = λ p. record { todo = msg ∷ rest; phase = p; cli = c } in
        subst (λ p. Follows 1 (t p) (turn srv uri uri_len msg rest p c)) (sym e)
          (returned-Follows msg rest r c all_fit)
  ]

  tick-Follows :
      (todo : List Text) (phase : Phase P) (c : Cli W)
      → Stands (record { todo = todo; phase = phase; cli = c })
      → Follows 1
          (record { todo = todo; phase = phase; cli = c })
          (tick_thread srv uri uri_len todo phase c)
  unfolding tick_thread
  tick-Follows [] phase c s = (s, refl, refl)
  tick-Follows (msg ∷ rest) phase c s = turn-Follows msg rest phase c s

  world-Agrees :
      (phase : Phase P) (c : Cli W) (w : W)
      → Agrees srv uri phase c
      → Agrees srv uri phase (record c { world = w })
  world-Agrees called c w a = a
  world-Agrees (built pdu) c w a = a
  world-Agrees (cleared pdu) c w a = a
  world-Agrees (retained pdu) c w a = a
  world-Agrees (ready pdu len) c w a = a
  world-Agrees (sent k) c w a = a
  world-Agrees (counting k) c w a = a
  world-Agrees counted c w a = a
  world-Agrees (returned r) c w a = a

  answered-Follows :
      (state : MemoState) (context : ℕ) (pdu : P) (remote : Endpoint) (t : Thread P W)
      → Stands t
      → Follows 0 t (step srv uri uri_len (answered state context pdu remote) t)
  unfolding step
  answered-Follows state context pdu remote t (fit, agrees) =
      let c = t.cli in
      let frame = answered_frame srv state context pdu remote c in
      let w = (Command.resp_handler srv state context pdu remote c).world in
      subst (λ c'. Follows 0 t (record t { cli = c' })) (sym frame)
        ((fit, world-Agrees t.phase c w agrees), omega arith, refl)

  step-Follows :
      (event : Event P) (t : Thread P W)
      → Stands t
      → Follows (ticks (event ∷ [])) t (step srv uri uri_len event t)
  unfolding step tick_thread ticks
  step-Follows tick t s = tick-Follows t.todo t.phase t.cli s
  step-Follows (answered state context pdu remote) t s =
      answered-Follows state context pdu remote t s

  ticks_cons :
      (event : Event P) (es : List (Event P)) → ticks (event ∷ es) ≡ ticks (event ∷ []) + ticks es
  unfolding ticks
  ticks_cons tick es = omega arith
  ticks_cons (answered state context pdu remote) es = omega arith

  run-Follows :
      (es : List (Event P)) (t : Thread P W)
      → Stands t
      → Follows (ticks es) t (run srv uri uri_len es t)
  unfolding run ticks
  run-Follows [] t s = (s, omega arith, refl)
  run-Follows (event ∷ es) t s =
      let (s', fewer, owes) = step-Follows event t s in
      let (s'', fewer', owes') = run-Follows es (step srv uri uri_len event t) s' in
      (s'', omega (arith, fewer, fewer', ticks_cons event es), owes' ∙ owes)

  left-done : (todo : List Text) (phase : Phase P) → left todo phase ≡ 0 → todo ≡ []
  left-done [] phase e = refl
  left-done (msg ∷ rest) phase e = elim (returned_cases phase) [
    | inl n ↦ ground (arith, n, e)
    | inr (r, is) ↦ ground (arith, ap rank is, e)
  ]

  -- Over a working network, a thread that is given nine steps for each of its texts, which all fit,
  -- posts them all, whatever responses come in between: the count of requests is greater by as many,
  -- modulo 2 ^ 16.
  pub any_schedule_counts :
      (msgs : List Text) (es : List (Event P)) (c : Cli W)
      → All (λ msg. length msg ≤ room) msgs
      → 9 * length msgs ≤ ticks es
      → let t = run srv uri uri_len es (record { todo = msgs; phase = called; cli = c }) in
        (t.todo ≡ []) × (t.cli.req_count % 2 ^ 16 ≡ (c.req_count + length msgs) % 2 ^ 16)
  any_schedule_counts msgs es c fit enough =
      let t = run srv uri uri_len es (record { todo = msgs; phase = called; cli = c }) in
      let (s, fewer, owes) =
        run-Follows es (record { todo = msgs; phase = called; cli = c }) (fit, tt) in
      let steps = left-called msgs in
      let nothing : left t.todo t.phase ≡ 0 = omega (arith, fewer, steps, enough) in
      let done = left-done t.todo t.phase nothing in
      let nothing_owed : owed t.todo t.phase ≡ 0 = ap (λ todo. owed todo t.phase) done in
      let all_owed = owed-called msgs in (done, omega (arith, owes, nothing_owed, all_owed))

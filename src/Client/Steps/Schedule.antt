-- ===== src/Client/Steps/Schedule.antt =====
-- Any schedule of a thread of posts and of responses keeps the static variables as they should be.
use mathlib.Core.Path.{subst}
use data_stream_pilot.Shared.{refl, sym, List, [], ◌∷◌}
use data_stream_pilot.Shared.Text.{Text}
use data_stream_pilot.Cli.{Cli}
use data_stream_pilot.Client.{Server, Resource, get_resource_path, get_resource_path_len}
use data_stream_pilot.Client.Steps.{
  Phase, called, built, cleared, retained, ready, sent, counting, counted, returned,
}
use data_stream_pilot.Client.Steps.Thread.{
  Thread, Event, tick, answered, answered_frame, turn, tick_thread, step, run,
}
use data_stream_pilot.Client.Command
use data_stream_pilot.Client.Steps.Retained.{Keeps, Keeps-frame, Cleared, advance-Keeps}

module _ {P W : Type 0} (srv : Server P W) (r : Resource) where
  abbrev Stands : Thread P W → Type 0
  Stands t = Cleared t.phase t.cli × Keeps r t.cli

  turn-Stands :
      (msg : Text) (rest : List Text) (phase : Phase P) (c : Cli W)
      → Cleared phase c
      → Keeps r c
      → Stands (turn srv (get_resource_path r) (get_resource_path_len r) msg rest phase c)
  unfolding turn
  turn-Stands msg rest (returned v) c h k = (tt, k)
  turn-Stands msg rest called c h k = advance-Keeps srv r msg called c h k
  turn-Stands msg rest (built pdu) c h k = advance-Keeps srv r msg (built pdu) c h k
  turn-Stands msg rest (cleared pdu) c h k = advance-Keeps srv r msg (cleared pdu) c h k
  turn-Stands msg rest (retained pdu) c h k = advance-Keeps srv r msg (retained pdu) c h k
  turn-Stands msg rest (ready pdu len) c h k = advance-Keeps srv r msg (ready pdu len) c h k
  turn-Stands msg rest (sent n) c h k = advance-Keeps srv r msg (sent n) c h k
  turn-Stands msg rest (counting n) c h k = advance-Keeps srv r msg (counting n) c h k
  turn-Stands msg rest counted c h k = advance-Keeps srv r msg counted c h k

  tick-Stands :
      (todo : List Text) (phase : Phase P) (c : Cli W)
      → Cleared phase c
      → Keeps r c
      → Stands (tick_thread srv (get_resource_path r) (get_resource_path_len r) todo phase c)
  unfolding tick_thread
  tick-Stands [] phase c h k = (h, k)
  tick-Stands (msg ∷ rest) phase c h k = turn-Stands msg rest phase c h k

  world-Cleared :
      (w : W) (phase : Phase P) (c : Cli W)
      → Cleared phase c
      → Cleared phase (record c { world = w })
  world-Cleared w called c h = h
  world-Cleared w (built pdu) c h = h
  world-Cleared w (cleared pdu) c h = h
  world-Cleared w (retained pdu) c h = h
  world-Cleared w (ready pdu len) c h = h
  world-Cleared w (sent n) c h = h
  world-Cleared w (counting n) c h = h
  world-Cleared w counted c h = h
  world-Cleared w (returned v) c h = h

  step-Stands :
      (event : Event P) (t : Thread P W)
      → Stands t
      → Stands (step srv (get_resource_path r) (get_resource_path_len r) event t)
  unfolding step
  step-Stands tick t (h, k) = tick-Stands t.todo t.phase t.cli h k
  step-Stands (answered state context pdu remote) t (h, k) =
      let c = t.cli in
      let w = (Command.resp_handler srv state context pdu remote c).world in
      subst (λ c'. Stands (record t { cli = c' }))
        (sym (answered_frame srv state context pdu remote c))
        (world-Cleared w t.phase c h, Keeps-frame r c (record c { world = w }) refl refl refl k)

  run-Stands :
      (es : List (Event P)) (t : Thread P W)
      → Stands t
      → Stands (run srv (get_resource_path r) (get_resource_path_len r) es t)
  unfolding run
  run-Stands [] t s = s
  run-Stands (event ∷ es) t s = run-Stands es _ (step-Stands event t s)

  -- Whatever the network does and whatever responses come in between its steps, a thread that posts
  -- to one resource leaves no proxy, a buffer of 64 bytes with its NUL, a count below 2 ^ 16, and a
  -- retained string that is empty or the path of the resource.
  pub any_schedule-Keeps :
      (msgs : List Text) (es : List (Event P)) (c : Cli W)
      → Keeps r c
      → Keeps r
          (run srv
            (get_resource_path r)
            (get_resource_path_len r)
            es
            (record { todo = msgs; phase = called; cli = c })).cli
  any_schedule-Keeps msgs es c k = (run-Stands es _ (tt, k)).1

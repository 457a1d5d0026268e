-- ===== src/Listener/Events.antt =====
-- Any order of what calls into the second client and its server: commands of a shell, the
-- requests that the program makes of itself, responses, and requests of other nodes.
use data_stream_pilot.Shared.{ℕ, ◌≡◌, refl, List, [], ◌∷◌, arith}
use data_stream_pilot.Shared.Text.{Text}
use data_stream_pilot.Gcoap.{Endpoint, MemoState}
use data_stream_pilot.Cli.{Cli, initial}
use data_stream_pilot.Cli.Command.{notify}
use data_stream_pilot.Cli.Command.Effects.{IsValid, initial-IsValid}
use data_stream_pilot.Cli.Events.{stats_method-IsValid}
use data_stream_pilot.Cli.Server
use data_stream_pilot.Client.{Resource, Server, send_coap_get_request, gcoap_post}
use data_stream_pilot.Client.Command
use data_stream_pilot.Client.Command.Effects.{host_cmd-IsValid, resp_handler-IsValid}
use data_stream_pilot.Client.Requests.{get_at-IsValid, post_at-IsValid}
use data_stream_pilot.Listener.{Handler, stats, board, stats_handler, handle, notify_observers}

pub data Event (P : Type 0) : Type 0 where
  command : List Text → Event P
  asked : Resource → Event P
  posted : Text → Resource → Event P
  answered : MemoState → ℕ → P → Endpoint → Event P
  requested : Handler → P → Event P
  notified : Event P

module _ {P W : Type 0} (srv : Server P W) where
  unfoldable pub step : Event P → Cli W → Cli W
  step (command argv) c = (Command.cli_cmd srv argv c).1
  step (asked r) c = send_coap_get_request srv r c
  step (posted msg r) c = (gcoap_post srv msg r c).1
  step (answered state context pdu remote) c = Command.resp_handler srv state context pdu remote c
  step (requested h pdu) c = (handle srv.gcoap h pdu c).1
  step notified c = notify_observers srv.gcoap c

  unfoldable pub run : List (Event P) → Cli W → Cli W
  unfolding step
  run [] c = c
  run (e ∷ es) c = run es (step e c)

  -- What the command of the second client calls is this server's notification.
  notify_observers_lem : (c : Cli W) → notify_observers srv.gcoap c ≡ notify srv.gcoap c
  unfolding notify_observers notify
  notify_observers_lem c = refl

  handle-IsValid :
      (h : Handler) (pdu : P) (c : Cli W) → IsValid c → IsValid (handle srv.gcoap h pdu c).1
  unfolding handle stats_handler Server.stats_handler
  handle-IsValid stats pdu c v = stats_method-IsValid srv.gcoap (srv.gcoap.method_flag pdu) pdu c v
  handle-IsValid board pdu c v = v

  step-IsValid : (e : Event P) (c : Cli W) → IsValid c → IsValid (step e c)
  unfolding step send_coap_get_request gcoap_post notify_observers
  step-IsValid (command argv) c v = host_cmd-IsValid srv argv c v
  step-IsValid (asked r) c v = get_at-IsValid srv _ _ c v
  step-IsValid (posted msg r) c v = post_at-IsValid srv msg _ _ c v
  step-IsValid (answered state context pdu remote) c v =
      resp_handler-IsValid srv state context pdu remote c v
  step-IsValid (requested h pdu) c v = handle-IsValid h pdu c v
  step-IsValid notified c v = ground arith

  run-IsValid : (es : List (Event P)) (c : Cli W) → IsValid c → IsValid (run es c)
  unfolding run
  run-IsValid [] c v = v
  run-IsValid (e ∷ es) c v = run-IsValid es (step e c) (step-IsValid e c v)

  -- From the start, after any sequence of commands, of requests that the program makes, of
  -- responses, of requests for its two resources and of notifications, the retained path is a
  -- string within its buffer of 64 bytes and the count of requests is a 16-bit number.
  pub host_run-IsValid : (es : List (Event P)) (w : W) → IsValid (run es (initial w))
  host_run-IsValid es w = run-IsValid es (initial w) (initial-IsValid w)

-- ===== src/Cli/Events.antt =====
-- Any order of commands, responses and requests to the server side.
use data_stream_pilot.Shared.{ℕ, List, [], ◌∷◌, arith}
use data_stream_pilot.Shared.Text.{Text}
use data_stream_pilot.Gcoap.{Gcoap, Endpoint, MemoState, MethodFlag, flag_get, flag_put, flag_other}
use data_stream_pilot.Cli.{Cli, initial}
use data_stream_pilot.Cli.Command.{cli_cmd}
use data_stream_pilot.Cli.Command.Effects.{IsValid, initial-IsValid, cli_cmd-IsValid}
use data_stream_pilot.Cli.Response.{resp_handler}
use data_stream_pilot.Cli.Response.Blocks.{resp_handler-IsValid}
use data_stream_pilot.Cli.Server.{stats_method, stats_handler}

-- what can call into the client
pub data Event (P : Type 0) : Type 0 where
  command : List Text → Event P
  answered : MemoState → ℕ → P → Endpoint → Event P
  stats : P → Event P

module _ {P W : Type 0} (g : Gcoap P W) where
  unfoldable pub step : Event P → Cli W → Cli W
  step (command argv) c = (cli_cmd g argv c).1
  step (answered state context pdu remote) c = resp_handler g state context pdu remote c
  step (stats pdu) c = (stats_handler g pdu c).1

  unfoldable pub run : List (Event P) → Cli W → Cli W
  unfolding step
  run [] c = c
  run (e ∷ es) c = run es (step e c)

  pub stats_method-IsValid :
      (flag : MethodFlag) (pdu : P) (c : Cli W) → IsValid c → IsValid (stats_method g flag pdu c).1
  unfolding stats_method
  stats_method-IsValid flag_get pdu c v = v
  stats_method-IsValid flag_put pdu c v = ground arith
  stats_method-IsValid flag_other pdu c v = v

  step-IsValid : (e : Event P) (c : Cli W) → IsValid c → IsValid (step e c)
  unfolding step stats_handler
  step-IsValid (command argv) c v = cli_cmd-IsValid g argv c v
  step-IsValid (answered state context pdu remote) c v =
      resp_handler-IsValid g state context pdu remote c v
  step-IsValid (stats pdu) c v = stats_method-IsValid (g.method_flag pdu) pdu c v

  run-IsValid : (es : List (Event P)) (c : Cli W) → IsValid c → IsValid (run es c)
  unfolding run
  run-IsValid [] c v = v
  run-IsValid (e ∷ es) c v = run-IsValid es (step e c) (step-IsValid e c v)

  -- From the start, after any sequence of commands, of responses and of requests for /cli/stats,
  -- whatever the arguments and the network, the retained path is a string within its buffer of 64
  -- bytes and the count of requests is a 16-bit number.
  pub run-initial-IsValid : (es : List (Event P)) (w : W) → IsValid (run es (initial w))
  run-initial-IsValid es w = run-IsValid es (initial w) (initial-IsValid w)

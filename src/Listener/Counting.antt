-- ===== src/Listener/Counting.antt =====
-- The count that /cli/stats reports of the requests that the program makes of itself.
use data_stream_pilot.Shared.Text.{Text}
use data_stream_pilot.Cli.{Cli}
use data_stream_pilot.Cli.Server
use data_stream_pilot.Client.{Server}

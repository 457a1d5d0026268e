-- ===== src/Node/Interleaved.antt =====
-- From readings to a receiver, where responses come in between the steps of the requests that carry
-- them.
use data_stream_pilot.Shared.Text.{Text}
use data_stream_pilot.Gcoap.Recording.{Recording}
use data_stream_pilot.Cli.{Cli}
use data_stream_pilot.Client.Steps.Thread

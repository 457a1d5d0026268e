-- ===== src/Engine/Received.antt =====
-- From the sensor node's power-on to the receiver of its payloads.
use data_stream_pilot.Shared.{ℕ, some, Option}
use data_stream_pilot.Shared.Int.{ℤ}
use data_stream_pilot.Shared.Text.{Text}
use data_stream_pilot.Float.{Float}
use data_stream_pilot.Gcoap.{Gcoap}
use data_stream_pilot.Gcoap.Recording.{Recording}
use data_stream_pilot.Engine.{Config, Engine}

-- what the receiver reads of a report
abbrev pub reading_of : Config → ℤ → Option (ℕ × Text × ℤ)
reading_of config value = some (config.site_name, config.sensor_id, value)

-- ===== src/Engine/Constant.antt =====
-- A constant temperature, from the sensor to what an observer of the network sees.
use data_stream_pilot.Float.{Float}
use data_stream_pilot.Gcoap.{Gcoap}
use data_stream_pilot.Gcoap.Recording.{Recording}
use data_stream_pilot.Engine.{Engine}

-- ===== src/Denoiser/Exact.antt =====
-- What the filter returns for three 16-bit readings.
use data_stream_pilot.Shared.{List}
use data_stream_pilot.Float.{Float}

-- ===== src/Examples.antt =====
-- Tests of the definitions, and the theorems at concrete inputs.
mod Ints
mod Net
mod Sensor
mod Client
mod Others
mod Station
mod Node
mod Air
mod Receiving
mod Observed
mod Transfer
mod Steps

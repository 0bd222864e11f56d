-- ===== src/Tests.antt =====
-- Runs of the model on small inputs, and the theorems at concrete inputs.
pub mod Adverts
pub mod Air
pub mod Clocks
pub mod Filter
pub mod Meshes
pub mod Packets
pub mod Pools
pub mod Runs
pub mod Talks
pub mod Texts
pub mod Waits
pub mod Loops

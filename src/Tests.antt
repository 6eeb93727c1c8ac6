-- ===== src/Tests.antt =====
-- Concrete instances of what the model takes as a parameter, and the theorems at concrete inputs.
pub mod Toy
pub mod Examples
pub mod Parts
pub mod Tables
pub mod Packets

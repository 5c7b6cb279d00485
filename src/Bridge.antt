-- ===== src/Bridge.antt =====
-- bridge.c: the C interface of the application around SOEM and Npcap.
pub mod Npcap
pub mod Frame
pub mod Shim
pub mod Soem
pub mod Master
pub mod Dictionary
pub mod Report
pub mod Passive
pub mod Session
pub mod Services
mod Tests

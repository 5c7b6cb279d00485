-- ===== src/Coe.antt =====
-- soem/soem/ethercatcoe.c, which the project patches: CAN over EtherCAT.
pub mod Mailbox
pub mod Layout
pub mod Tables
pub mod Exchange
pub mod Upload
pub mod Download
pub mod Dictionary
pub mod Pdo
pub mod Mapping
pub mod Complete
pub mod Simulation
mod Tests

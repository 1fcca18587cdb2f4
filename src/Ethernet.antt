-- ===== src/Ethernet.antt =====
-- The ethernet driver, src/stm32h7/Ethernetif.cpp and include/lwipserver/stm32h7.
pub mod TxDescriptor
pub mod TxRing
pub mod LinkCheck
pub mod Reception
pub mod Setup
pub mod Pins

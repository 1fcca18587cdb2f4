-- ===== src/Chip.antt =====
-- What runs before and below the application: src/stm32h7/Startup.cpp, System.cpp and Base.cpp, and
-- the setup of the peripherals' pins and channels.
pub mod Startup
pub mod System
pub mod Mpu
pub mod Hal
pub mod Clocks
pub mod Boot
pub mod Tick
pub mod Vectors
pub mod Tests

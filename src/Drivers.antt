-- ===== src/Drivers.antt =====
-- src/drivers: the device drivers.
pub mod Dma
pub mod Nvme
pub mod Mouse
pub mod Pci
pub mod Rtc
pub mod Hpet
pub mod Display

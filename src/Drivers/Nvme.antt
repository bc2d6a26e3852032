-- ===== src/Drivers/Nvme.antt =====
-- src/drivers/nvme: the NVMe driver.
pub mod Cmd
pub mod Memory
pub mod Queues
pub mod Device

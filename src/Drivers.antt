-- ===== src/Drivers.antt =====
-- cp/drivers: real devices.
pub mod Dasd
pub mod Registry

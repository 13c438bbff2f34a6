-- ===== src/Backends.antt =====
-- modbusgw/backends: the ways to the devices.
pub mod Serial
pub mod Tcp

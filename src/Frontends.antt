-- ===== src/Frontends.antt =====
-- modbusgw/frontends: the ways in for clients.
pub mod Mbap
pub mod Rtu
pub mod Unix
pub mod Tcp

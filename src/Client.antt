-- ===== src/Client.antt =====
-- modbusgw_client: the blocking client library.
pub mod Codecs
pub mod Tcp
pub mod Serial
pub mod Facade

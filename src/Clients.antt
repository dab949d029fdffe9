-- ===== src/Clients.antt =====
-- The lists of clients of src/server/server.c.
pub mod Array
pub mod Tcp
pub mod Udp

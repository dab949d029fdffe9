-- ===== src/TcpClient.antt =====
-- The TCP client, src/clients/tcp_client.c.
pub mod Connection
pub mod Encoding
pub mod Items
pub mod Delivery
pub mod Login
pub mod Requests
pub mod Process
pub mod Session
pub mod Menu
pub mod Reading
pub mod Updates

-- ===== src/UdpClient.antt =====
-- The UDP client, src/clients/udp_client.c.
pub mod Menu
pub mod Session
pub mod Connection
pub mod Requests
pub mod Process
pub mod Updates
pub mod Delivery

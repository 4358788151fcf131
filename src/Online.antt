-- ===== src/Online.antt =====
-- The services behind the network (src/online).
pub mod Endpoint

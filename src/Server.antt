-- ===== src/Server.antt =====
-- library/effects/src/server: the cas-http/0 server, as the wire law and the semantic core.
pub mod Protocol
pub mod Core

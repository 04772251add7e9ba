-- ===== src/HttpServer.antt =====
-- The web server of http_server/.
pub mod Config
pub mod Request
pub mod Response
pub mod Connection
pub mod EventLoop
pub mod Startup

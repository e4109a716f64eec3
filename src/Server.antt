-- ===== src/Server.antt =====
-- The HTTP server, internal/server: who a request comes from and what it may do, the settings of
-- the pages, and how fresh the traffic is that they show.
pub mod Freshness
pub mod Proxies
pub mod Access
pub mod RateLimit
pub mod Settings
pub mod Cors
pub mod Index
pub mod ReverseProxy

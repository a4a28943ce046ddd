-- ===== src/Server.antt =====
-- resolver/internal/server: resolution, the REST, UDP and web front ends, resources and the rate limit.
pub mod Handle
pub mod Attached
pub mod Trust
pub mod Resource
pub mod Web
pub mod Served
pub mod Authentic
pub mod Limiter
pub mod ReadThrough
pub mod Peers
pub mod Rest
pub mod Udp
pub mod Headers
pub mod Replies

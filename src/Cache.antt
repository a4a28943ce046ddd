-- ===== src/Cache.antt =====
-- resolver/internal/cache/cache.go and hash.go: the TTL cache with its two name indexes.
pub mod Lru
pub mod State
pub mod Index
pub mod Steps
pub mod Effects
pub mod Events
pub mod Contents
pub mod Abstract

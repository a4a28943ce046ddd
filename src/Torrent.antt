-- ===== src/Torrent.antt =====
-- resolver/internal/torrent/torrent.go: the engine that seeds and fetches resources.
pub mod Engine
pub mod Retention
pub mod Safety
pub mod Fetch
pub mod Threads
pub mod Interleaving

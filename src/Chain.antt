-- ===== src/Chain.antt =====
-- resolver/internal/chain: the resolver's view of on-chain records.
pub mod Types
pub mod Events
pub mod Delivery
pub mod Client
pub mod Reads

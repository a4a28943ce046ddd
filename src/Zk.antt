-- ===== src/Zk.antt =====
-- resolver/internal/zk: record commitments.
pub mod Pack
pub mod Binding
pub mod Calldata

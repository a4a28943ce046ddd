-- ===== src/Query.antt =====
-- resolver/internal/query/query.go: the normalized query and the canonical selector. A Go map is
-- the list of its pairs in the order in which Go happens to range over it.
pub mod Grammar
pub mod Selector
pub mod Names
pub mod Order
pub mod Canonical
pub mod RoundTrip

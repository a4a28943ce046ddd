-- ===== src/Udp.antt =====
-- resolver/internal/server/udp.go: the compact binary wire format.
pub mod Codec
pub mod RoundTrip
pub mod Total
pub mod QueryRoundTrip

-- ===== src/Tests.antt =====
-- Runs of the definitions and of the properties at concrete inputs.
mod OneSlot
mod Instances
mod TorrentTests
mod ServerTests
mod QueryTests
mod PkiTests
mod CacheTests
mod CliTests
mod LookupTests
mod FrontTests
mod DeliveryTests

-- ===== src/Cli.antt =====
-- resolver/cmd/ddns: the command line of a domain's owner.
pub mod Args
pub mod Reorder
pub mod Fields
pub mod Addresses
pub mod Script
pub mod Owner
pub mod Amount
pub mod Channels
pub mod Publish
pub mod Main
pub mod Orderly
pub mod Receipts
pub mod Published
pub mod Anchored
pub mod Exact

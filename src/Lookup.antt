-- ===== src/Lookup.antt =====
-- resolver/cmd/ddns-lookup and resolver/cmd/ddns-fetch: the clients that check what a resolver answers.
pub mod Compare
pub mod Agreement
pub mod Client
pub mod Vouched
pub mod Honest
pub mod Answered
pub mod Delivered
pub mod Command
pub mod Judged
pub mod Fetch

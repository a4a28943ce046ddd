-- ===== src/Server/Resource.antt =====
-- fetchVerifiedResource of resolver/internal/server/resource.go: from a ResourceRef record to checked
-- bytes. The torrent engine, the semaphore and the resolution path give their results as arguments.
use decentralized_dns.Base.{
  ℕ, Bytes, Bytes-discrete, [], Bool, true, false, not, ◌||◌, ◌==◌, Option, none, some, ite,
  if◌then◌else◌, codes, any_of,
}
use decentralized_dns.Base.Text.{Unicode, trim_space}
use decentralized_dns.Chain.Types.{field}
use decentralized_dns.ContentType.{Sniffer, Verdict, validate}
use decentralized_dns.Server.Handle.{QueryResult, found}
use decentralized_dns.Torrent.Fetch.{
  Fetched, content, failed, FetchError, hash_mismatch, too_large, no_metadata, download_stopped,
}

-- the machine codes of resourceError
pub data Code : Type 0 where
  resource_engine_unavailable chain_error no_match owner_signature_invalid : Code
  bad_resource_ref resource_busy resource_hash_mismatch resource_too_large : Code
  resource_timeout resource_fetch_failed content_type_mismatch : Code

-- the HTTP status of each
abbrev pub status_of : Code → ℕ
status_of resource_engine_unavailable = 503
status_of chain_error = 502
status_of no_match = 404
status_of owner_signature_invalid = 502
status_of bad_resource_ref = 502
status_of resource_busy = 503
status_of resource_hash_mismatch = 502
status_of resource_too_large = 502
status_of resource_timeout = 504
status_of resource_fetch_failed = 502
status_of content_type_mismatch = 422

pub record VerifiedResource : Type 0 where
  pub body : Bytes
  pub owner : Bytes
  pub pub_key : Bytes
  pub info_hash : Bytes
  pub sha : Bytes
  pub content_type : Bytes
  pub zk_proof : Bytes
  pub validation : Verdict
  pub ttl : ℕ

pub data Outcome (A : Type 0) : Type 0 where
  served : A → Outcome A
  refused : Code → Outcome A

infixl 5 ◌>>=◌ ◌>>◌
abbrev pub ◌>>=◌ : {A B : Type 0} → Outcome A → (A → Outcome B) → Outcome B
served a >>= f = f a
refused e >>= f = refused e

abbrev pub ◌>>◌ : {B : Type 0} → Outcome (Unit {0}) → Outcome B → Outcome B
m >> k = m >>= λ _. k

abbrev pub require : Bool → Code → Outcome (Unit {0})
require true e = served tt
require false e = refused e

abbrev pub is_blank : Unicode → Bytes → Bool
is_blank u s = ite (Bytes-discrete (trim_space u s) []) true false

-- a field that is there and not blank
unfoldable pub required_field : Unicode → Option Bytes → Outcome Bytes
required_field u none = refused bad_resource_ref
required_field u (some v) = if is_blank u v then refused bad_resource_ref else served v

unfoldable pub media_type : Unicode → Option Bytes → Bytes
media_type u none = codes "application/octet-stream"
media_type u (some v) = if is_blank u v then codes "application/octet-stream" else v

-- strings.ContainsAny(s, "\r\n")
abbrev pub has_line_break : Bytes → Bool
has_line_break s = any_of (λ c. (c == 13) || (c == 10)) s

-- the switch on the error of Fetch
abbrev pub fetch_code : FetchError → Code
fetch_code hash_mismatch = resource_hash_mismatch
fetch_code too_large = resource_too_large
fetch_code no_metadata = resource_timeout
fetch_code download_stopped = resource_timeout
fetch_code e = resource_fetch_failed

abbrev pub fetched_body : Fetched → Outcome Bytes
fetched_body (content b) = served b
fetched_body (failed e) = refused (fetch_code e)

abbrev pub resolved : Option QueryResult → Outcome QueryResult
resolved none = refused chain_error
resolved (some r) = served r

-- fetchVerifiedResource: `enabled` tells whether there is an engine, `answer` is what HandleQuery
-- returns, `free` whether the semaphore was taken before the context ended, and `fetch` the engine.
unfoldable pub fetch_verified_resource :
    Unicode
    → Sniffer
    → Bool
    → Bool
    → Option QueryResult
    → Bool
    → (Bytes → Bytes → Fetched)
    → Outcome VerifiedResource
unfolding required_field media_type found
fetch_verified_resource u n enabled enforce_type answer free fetch = do
  require enabled resource_engine_unavailable
  res ← resolved answer
  require (found res) no_match
  require res.result.owner_sig_valid owner_signature_invalid
  info_hash ← required_field u (field res.result.entry (codes "infoHash"))
  sha ← required_field u (field res.result.entry (codes "sha256"))
  require (not (has_line_break (media_type u (field res.result.entry (codes "contentType")))))
      bad_resource_ref
  require free resource_busy
  body ← fetched_body (fetch info_hash sha)
  require
      ((validate u n (media_type u (field res.result.entry (codes "contentType"))) body).is_ok
        || not enforce_type)
      content_type_mismatch
  served (record {
    body = body;
    owner = res.result.owner;
    pub_key = res.result.pub_key;
    info_hash = info_hash;
    sha = sha;
    content_type = media_type u (field res.result.entry (codes "contentType"));
    zk_proof = res.result.zk_proof;
    validation = validate u n (media_type u (field res.result.entry (codes "contentType"))) body;
    ttl = res.result.entry.ttl;
  })

-- ===== src/Server/Authentic.antt =====
-- The whole path of a resource through resolver/internal/server (handle.go, resource.go) and
-- resolver/internal/torrent/torrent.go.
use decentralized_dns.Base.{ℕ, Bytes, List, Bool, Option, none, some, codes, ◌≡◌}
use decentralized_dns.Base.Text.{Unicode}
use decentralized_dns.Cache.Lru.{Key, Lru}
use decentralized_dns.Cache.State.{Entry, TtlCache}
use decentralized_dns.Chain.Types.{ResolveResult, field}
use decentralized_dns.ContentType.{Sniffer}
use decentralized_dns.Pki.Owner.{Secp, SliceSort}
use decentralized_dns.Pki.Verify.{Accepted, verify_owner_sig-Accepted}
use decentralized_dns.Query.Selector.{Query}
use decentralized_dns.Server.Handle.{Answer, handle_query, Step, run}
use decentralized_dns.Server.Resource.{served, VerifiedResource, fetch_verified_resource}
use decentralized_dns.Server.Served.{fetch_verified_resource-IsChecked}
use decentralized_dns.Server.Trust.{handle_query-IsTrusted}
use decentralized_dns.Torrent.Fetch.{Hexes, Swarm, fetch, fetch-sha256}
use decentralized_dns.Zk.Pack.{Gnark}

-- What authenticates a resource: the owner of its record signed that record, whose sha256 field is
-- the hash of the body.
pub record IsAuthentic (c : Secp) (o : SliceSort) (x : Hexes) (name : Bytes) (v : VerifiedResource)
    : Type 0 where
  pub source : ResolveResult
  pub signed : Accepted c o name source.entry source.owner source.pub_key
  pub from_owner : v.owner ≡ source.owner
  pub sha_field : field source.entry (codes "sha256") ≡ some v.sha
  pub body_hash : x.decode_sha v.sha ≡ some (x.sha256 v.body)

-- A resource that the resolver serves for a query, after any queries and events on a cache that was
-- empty, whatever the chain and the swarm answered, is authentic: its record is signed by the owner
-- it names, and its body has the SHA-256 that the signed record gives.
pub fetch_verified_resource-IsAuthentic :
    (c : Secp) (o : SliceSort) (g : Gnark) (name_hash : Bytes → Bytes)
    (L : Lru (Entry ResolveResult)) (u : Unicode) (n : Sniffer) (x : Hexes) (swarm : Swarm)
    (s : TtlCache name_hash L) (xs : List (Step c o g name_hash L)) (at now : ℕ) (q : Query)
    (chain : Option Answer) (enabled enforce_type free : Bool) (v : VerifiedResource)
    → ((k : Key) → L.peek s.lru k ≡ none)
    → fetch_verified_resource u n enabled enforce_type
        (handle_query c o g name_hash L (run c o g name_hash L s xs) at now q chain).1
        free
        (λ info sha. (fetch x info sha swarm).1)
      ≡ served v
    → IsAuthentic c o x q.name v
fetch_verified_resource-IsAuthentic c o g name_hash L u n x swarm s xs at now q chain enabled
      enforce_type free v empty h =
    let (res, answered, checks) =
      fetch_verified_resource-IsChecked u n enabled enforce_type
        (handle_query c o g name_hash L (run c o g name_hash L s xs) at now q chain).1 free
        (λ info sha. (fetch x info sha swarm).1) v h in
    let trusted = handle_query-IsTrusted c o g name_hash L s xs at now q chain res empty answered in
    record {
      source = res.result;
      signed =
          verify_owner_sig-Accepted c o q.name res.result.entry res.result.owner res.result.pub_key
            (trusted.owner_verdict checks.is_signed);
      from_owner = checks.is_owner;
      sha_field = checks.sha_field;
      body_hash = (fetch-sha256 x v.info_hash v.sha v.body swarm checks.is_fetched).0;
    }

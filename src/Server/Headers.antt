-- ===== src/Server/Headers.antt =====
-- handleResource of resolver/internal/server/resource.go: the query, the signed headers and the body.
use decentralized_dns.Base.{
  ℕ, Bytes, Bytes-discrete, [], ◌++◌, Bool, true, false, ltb, ite, if◌then◌else◌, codes,
}
use decentralized_dns.Base.Text.{Unicode, itoa}
use decentralized_dns.Query.Selector
use decentralized_dns.Query.Selector.{Query, parse_pairs}
use decentralized_dns.Pki.Resource.{Signing, Provenance, resource_manifest}
use decentralized_dns.Server.Resource.{Code, status_of, VerifiedResource, Outcome, served, refused}
use decentralized_dns.Server.Rest.{Params}

-- the query of a request, or an error: another record type, or one of the query package
pub data ResourceQuery : Type 0 where
  parsed : Query → ResourceQuery
  other_type : ResourceQuery
  bad_query : Selector.Error → ResourceQuery

unfoldable pub parse_resource_query : Unicode → Params → ResourceQuery
parse_resource_query u params =
    let given = params (codes "type") in
    let rtype = ite (Bytes-discrete given []) (codes "ResourceRef") given in
    ite (Bytes-discrete rtype (codes "ResourceRef"))
      (elim (parse_pairs u (params (codes "selector"))) [
        | Selector.err e ↦ bad_query e
        | Selector.ok pairs ↦ elim (Selector.new u (params (codes "name")) rtype pairs) [
          | Selector.err e ↦ bad_query e
          | Selector.ok q ↦ parsed q
        ]
      ])
      other_type

-- the headers of a response; a header that is not set is empty
pub record ResourceHeaders : Type 0 where
  pub content_type : Bytes
  pub resolver : Bytes
  pub signature : Bytes
  pub owner : Bytes
  pub pub_key : Bytes
  pub info_hash : Bytes
  pub sha256 : Bytes
  pub owner_sig_verified : Bytes
  pub content_validation : Bytes
  pub detected_type : Bytes
  pub zk_proof : Bytes
  pub cache_control : Bytes

pub data ResourceReply : Type 0 where
  page : ResourceHeaders → Bytes → ResourceReply
  bad_request : ResourceReply
  failure : ℕ → Code → ResourceReply

-- validationStatus
unfoldable pub validation_status : Bool → Bytes
validation_status true = codes "ok"
validation_status false = codes "mismatch"

module _ (g : Signing) (address_hex : Bytes → Bytes) (key : g.PrivateKey) where
  -- zkHex: "" for a resource without a proof
  abbrev pub proof_hex : Bytes → Bytes
  proof_hex proof = ite (Bytes-discrete proof []) [] (g.hex_encode proof)

  -- what the resolver's signature covers beside the body
  abbrev pub provenance : VerifiedResource → Provenance
  provenance v = record {
    owner = address_hex v.owner;
    pub_key_hex = g.hex_encode v.pub_key;
    info_hash = v.info_hash;
    sha256_hex = v.sha;
    content_type = v.content_type;
    owner_sig_verified = true;
    zk_proof_hex = proof_hex v.zk_proof;
  }

  unfoldable pub resource_headers : VerifiedResource → ResourceHeaders
  unfolding validation_status
  resource_headers v = record {
    content_type = v.content_type;
    resolver = g.hex_encode (g.public_of key);
    signature = g.hex_encode (g.sign key (resource_manifest g (provenance v) v.body));
    owner = address_hex v.owner;
    pub_key = g.hex_encode v.pub_key;
    info_hash = v.info_hash;
    sha256 = v.sha;
    owner_sig_verified = codes "true";
    content_validation = validation_status v.validation.is_ok;
    detected_type = v.validation.detected;
    zk_proof = proof_hex v.zk_proof;
    cache_control = if ltb 0 v.ttl then codes "public, max-age=" ++ itoa v.ttl else [];
  }

  -- handleResource, with what fetchVerifiedResource gives for a query
  unfoldable pub handle_resource :
      Unicode → (Query → Outcome VerifiedResource) → Params → ResourceReply
  handle_resource u fetch params = elim (parse_resource_query u params) [
    | other_type ↦ bad_request
    | bad_query e ↦ bad_request
    | parsed q ↦ elim (fetch q) [
      | refused e ↦ failure (status_of e) e
      | served v ↦ page (resource_headers v) v.body
    ]
  ]

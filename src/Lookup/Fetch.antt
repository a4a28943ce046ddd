-- ===== src/Lookup/Fetch.antt =====
-- resolver/cmd/ddns-fetch/main.go: what the fetch client checks of a downloaded resource.
use decentralized_dns.Base.{
  ℕ, zero, suc, ◌*◌, ◌^◌, ◌≤◌, Bytes, Bytes-discrete, [], ◌∷◌, Bool, true, false, not, none, some,
  ite, ltb, ◌==◌, ◌&&◌, all_of, if◌then◌else◌, codes, length, take, ◌≡◌, refl, ap, ◌∙◌, arith,
}
use decentralized_dns.Base.Text.{Unicode}
use decentralized_dns.ContentType.{Sniffer, validate}
use decentralized_dns.Pki.Resource.{Signing, Provenance, verify_resource_signature}
use decentralized_dns.Pki.Manifest.{verify_resource_signature-sign}
use decentralized_dns.Server.Headers.{
  ResourceHeaders, ResourceReply, page, bad_request, failure, provenance, resource_headers,
}
use decentralized_dns.Server.Resource.{VerifiedResource}

-- maxResourceBytes
abbrev pub max_resource_bytes : ℕ
max_resource_bytes = 256 * 2 ^ 20

-- a byte that a header carries as it is
abbrev is_field_byte : ℕ → Bool
is_field_byte c = ltb 31 c && ltb c 127

unfoldable pub ends_plain : Bytes → Bool
ends_plain [] = true
ends_plain (c ∷ []) = not (c == 32)
ends_plain (c ∷ d ∷ ds) = ends_plain (d ∷ ds)

-- a text of visible ASCII bytes and spaces that neither starts nor ends with a space
unfoldable pub is_plain : Bytes → Bool
unfolding ends_plain
is_plain [] = true
is_plain (c ∷ cs) = not (c == 32) && ends_plain (c ∷ cs) && all_of is_field_byte (c ∷ cs)

-- What net/http makes of the value of a header on its way from the resolver to the client: it trims
-- the value and replaces line breaks, and carries a plain one as it is.
pub record Transport : Type 0 where
  pub carry : Bytes → Bytes
  pub carry_plain : (s : Bytes) → is_plain s ≡ true → carry s ≡ s

-- the response's headers at the client
unfoldable pub received : Transport → ResourceHeaders → ResourceHeaders
received t h = record {
  content_type = t.carry h.content_type;
  resolver = t.carry h.resolver;
  signature = t.carry h.signature;
  owner = t.carry h.owner;
  pub_key = t.carry h.pub_key;
  info_hash = t.carry h.info_hash;
  sha256 = t.carry h.sha256;
  owner_sig_verified = t.carry h.owner_sig_verified;
  content_validation = t.carry h.content_validation;
  detected_type = t.carry h.detected_type;
  zk_proof = t.carry h.zk_proof;
  cache_control = t.carry h.cache_control;
}

-- the headers that the client reads are plain texts
pub record ArePlain (h : ResourceHeaders) : Type 0 where
  pub content_type : is_plain h.content_type ≡ true
  pub resolver : is_plain h.resolver ≡ true
  pub signature : is_plain h.signature ≡ true
  pub owner : is_plain h.owner ≡ true
  pub pub_key : is_plain h.pub_key ≡ true
  pub info_hash : is_plain h.info_hash ≡ true
  pub sha256 : is_plain h.sha256 ≡ true
  pub owner_sig_verified : is_plain h.owner_sig_verified ≡ true
  pub zk_proof : is_plain h.zk_proof ≡ true

-- how a download ends: with bytes that are written, and whether their type was confirmed, or with exit 1
pub data Download : Type 0 where
  wrote : Bytes → Bool → Download
  http_error sha_mismatch provenance_invalid owner_unverified : Download

module _ (u : Unicode) (n : Sniffer) (g : Signing) (hex : Bytes → Bytes) (t : Transport) where
  abbrev pub claimed : ResourceHeaders → Bool → Provenance
  claimed h verified = record {
    owner = h.owner;
    pub_key_hex = h.pub_key;
    info_hash = h.info_hash;
    sha256_hex = h.sha256;
    content_type = h.content_type;
    owner_sig_verified = verified;
    zk_proof_hex = h.zk_proof;
  }

  -- The checks on the bytes that were read; `hex` is hex.EncodeToString.
  unfoldable pub check_download : ResourceHeaders → Bytes → Download
  check_download h body =
      let verified = ite (Bytes-discrete h.owner_sig_verified (codes "true")) true false in
      ite (Bytes-discrete (hex (g.sha256 body)) h.sha256)
        (elim (verify_resource_signature g h.resolver h.signature (claimed h verified) body) [
          | some e ↦ provenance_invalid
          | none ↦
              if not verified
              then owner_unverified
              else wrote body (validate u n h.content_type body).is_ok
        ])
        sha_mismatch

  -- main on a response, of which at most `limit` bytes are read
  unfoldable pub download : ℕ → ResourceReply → Download
  unfolding received
  download limit bad_request = http_error
  download limit (failure status e) = http_error
  download limit (page h body) = check_download (received t h) (take limit body)

  -- what becomes of the headers, when those that the client reads are plain
  received-plain :
      (h : ResourceHeaders)
      → ArePlain h
      → received t h ≡ record h {
        content_validation = t.carry h.content_validation;
        detected_type = t.carry h.detected_type;
        cache_control = t.carry h.cache_control;
      }
  unfolding received
  received-plain h p =
      rw
        (
          t.carry_plain h.content_type p.content_type,
          t.carry_plain h.resolver p.resolver,
          t.carry_plain h.signature p.signature,
          t.carry_plain h.owner p.owner,
          t.carry_plain h.pub_key p.pub_key,
          t.carry_plain h.info_hash p.info_hash,
          t.carry_plain h.sha256 p.sha256,
          t.carry_plain h.owner_sig_verified p.owner_sig_verified,
          t.carry_plain h.zk_proof p.zk_proof,
        )
        refl

  check_download-received :
      (h : ResourceHeaders) (body : Bytes)
      → ArePlain h
      → check_download (received t h) body ≡ check_download h body
  unfolding check_download
  check_download-received h body p =
      ap (λ (x : ResourceHeaders). check_download x body) (received-plain h p) ∙ refl

  take_all : (limit : ℕ) (body : Bytes) → length body ≤ limit → take limit body ≡ body
  take_all zero [] h = refl
  take_all zero (b ∷ bs) h = absurd (omega arith)
  take_all (suc limit) [] h = refl
  take_all (suc limit) (b ∷ bs) h = ap (◌∷◌ b) (take_all limit bs (omega arith))

  module _ (address_hex : Bytes → Bytes) (key : g.PrivateKey) where
    check_download-eq :
        (v : VerifiedResource)
        → check_download (resource_headers g address_hex key v) v.body
          ≡ ite
              (Bytes-discrete (hex (g.sha256 v.body)) v.sha)
              (wrote v.body (validate u n v.content_type v.body).is_ok)
              sha_mismatch
    unfolding check_download resource_headers Bytes-discrete
    check_download-eq v =
        rw (verify_resource_signature-sign g key (provenance g address_hex key v) v.body) refl

    -- When the headers that the client reads are plain, `ddns-fetch` writes what a resolver serves
    -- unchanged exactly when the record's sha256 field is the digest of the body as the client itself
    -- writes it in hexadecimal, and rejects it as a mismatch otherwise: the resolver's signature over
    -- the headers always verifies. Of the headers, the hexadecimal texts and "true" are plain by
    -- themselves, and the content type, the info hash and the digest are the record's. The body is
    -- within the limit that the client reads.
    pub download-resource_headers :
        (limit : ℕ) (v : VerifiedResource)
        → ArePlain (resource_headers g address_hex key v)
        → length v.body ≤ limit
        → download limit (page (resource_headers g address_hex key v) v.body)
          ≡ ite
              (Bytes-discrete (hex (g.sha256 v.body)) v.sha)
              (wrote v.body (validate u n v.content_type v.body).is_ok)
              sha_mismatch
    unfolding download
    download-resource_headers limit v p h =
        let headers = resource_headers g address_hex key v in
        ap (check_download (received t headers)) (take_all limit v.body h)
        ∙ check_download-received headers v.body p
        ∙ check_download-eq v

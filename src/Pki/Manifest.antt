-- ===== src/Pki/Manifest.antt =====
-- The resource manifest and the envelopes of resolver/internal/pki/resource.go and envelope.go.
use mathlib.Core.Option.{some-injective}
use decentralized_dns.Base.{
  ◌^◌, ◌<◌, Bytes, ◌++◌, Bool, true, Option, none, some, ◌≡◌, refl, sym, ap, ◌∙◌, ◌==◌, codes,
  length, append_inj, arith,
}
use decentralized_dns.Base.Wire.{str32, str32-append_inj}
use decentralized_dns.Pki.Resource.{
  Signing, Provenance, flag, resource_manifest, check_sig, check_key, verify_resource_signature,
  Envelope, seal_envelope, verify_envelope,
}

abbrev pub Fits : Bytes → Type 0
Fits s = length s < 2 ^ 32

-- the lengths that the manifest's prefixes hold
pub record FitsManifest (p : Provenance) : Type 0 where
  pub owner_fits : Fits p.owner
  pub pub_key_hex_fits : Fits p.pub_key_hex
  pub info_hash_fits : Fits p.info_hash
  pub sha256_hex_fits : Fits p.sha256_hex
  pub content_type_fits : Fits p.content_type
  pub zk_proof_hex_fits : Fits p.zk_proof_hex

flag_inj : (a b : Bool) → flag a ≡ flag b → a ≡ b
flag_inj a b h = ground arith

-- Two manifests that are equal, whose texts' lengths fit 32 bits, assert the same provenance and
-- bodies with the same SHA-256.
pub resource_manifest_inj :
    (g : Signing) (p q : Provenance) (body body' : Bytes)
    → FitsManifest p
    → FitsManifest q
    → resource_manifest g p body ≡ resource_manifest g q body'
    → (p ≡ q) × (g.sha256 body ≡ g.sha256 body')
unfolding resource_manifest
resource_manifest_inj g p q body body' h k e =
    let (_, e0) = append_inj (codes "ddns-resource-v1") (codes "ddns-resource-v1") _ _ refl e in
    let (owners, e1) = str32-append_inj p.owner q.owner _ _ h.owner_fits k.owner_fits e0 in
    let (keys, e2) =
      str32-append_inj p.pub_key_hex q.pub_key_hex _ _ h.pub_key_hex_fits k.pub_key_hex_fits e1 in
    let (infos, e3) =
      str32-append_inj p.info_hash q.info_hash _ _ h.info_hash_fits k.info_hash_fits e2 in
    let (shas, e4) =
      str32-append_inj p.sha256_hex q.sha256_hex _ _ h.sha256_hex_fits k.sha256_hex_fits e3 in
    let (types, e5) =
      str32-append_inj p.content_type q.content_type _ _ h.content_type_fits k.content_type_fits
        e4 in
    let flags : flag p.owner_sig_verified ≡ flag q.owner_sig_verified = cc in
    let e6 : str32 p.zk_proof_hex ++ g.sha256 body ≡ str32 q.zk_proof_hex ++ g.sha256 body' = cc in
    let (proofs, e7) =
      str32-append_inj p.zk_proof_hex q.zk_proof_hex _ _ h.zk_proof_hex_fits k.zk_proof_hex_fits
        e6 in
    let verdicts = flag_inj p.owner_sig_verified q.owner_sig_verified flags in
    (
      λ i. record {
        owner = owners i;
        pub_key_hex = keys i;
        info_hash = infos i;
        sha256_hex = shas i;
        content_type = types i;
        owner_sig_verified = verdicts i;
        zk_proof_hex = proofs i;
      },
      e7,
    )

check_key-sign :
    (g : Signing) (k : g.PrivateKey) (m : Bytes)
    → check_key g
        (g.hex_decode (g.hex_encode (g.public_of k)))
        (g.hex_decode (g.hex_encode (g.sign k m)))
        m
      ≡ none
unfolding check_key check_sig
check_key-sign g k m =
    let sized : (length (g.public_of k) == 32) ≡ true = ground (arith, g.length-public_of k) in
    let sized' : (length (g.sign k m) == 64) ≡ true = ground (arith, g.length-sign k m) in
    rw (
      g.hex_decode-hex_encode (g.public_of k),
      g.hex_decode-hex_encode (g.sign k m),
      check_key,
      check_sig,
      sized,
      sized',
      g.verify-sign k m,
    )

-- An envelope that the resolver seals verifies, and it carries the marshalled response unchanged.
pub verify_envelope-seal_envelope :
    (g : Signing) (k : g.PrivateKey) (contents : Option Bytes) (env : Envelope)
    → seal_envelope g k contents ≡ some env
    → (verify_envelope g env ≡ none) × (contents ≡ some env.contents)
unfolding seal_envelope verify_envelope
verify_envelope-seal_envelope g k none env h = cc
verify_envelope-seal_envelope g k (some data_bytes) env h =
    let made = some-injective _ _ h in
    (
      ap (verify_envelope g) (sym made) ∙ check_key-sign g k data_bytes,
      ap (λ (e : Envelope). some e.contents) made,
    )

-- The resolver's signature over a manifest verifies for the provenance and body that it was made for.
pub verify_resource_signature-sign :
    (g : Signing) (k : g.PrivateKey) (p : Provenance) (body : Bytes)
    → verify_resource_signature g
        (g.hex_encode (g.public_of k))
        (g.hex_encode (g.sign k (resource_manifest g p body)))
        p
        body
      ≡ none
unfolding verify_resource_signature
verify_resource_signature-sign g k p body = check_key-sign g k (resource_manifest g p body)

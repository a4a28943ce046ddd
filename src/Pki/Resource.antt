-- ===== src/Pki/Resource.antt =====
-- resolver/internal/pki/identity.go (Sign, PublicKeyHex), envelope.go and resource.go: what the
-- resolver signs with its own identity, and how a client verifies it.
use decentralized_dns.Base.{
  ℕ, Bytes, ◌∷◌, ◌++◌, Bool, true, false, not, Option, none, some, ◌≡◌, ◌==◌, if◌then◌else◌, codes,
  length,
}
use decentralized_dns.Base.Wire.{str32}

-- crypto/ed25519 and crypto/sha256 over an abstract private key, and go-ethereum's hexutil
pub record Signing : Type 1 where
  pub PrivateKey : Type 0
  pub public_of : PrivateKey → Bytes
  pub sign : PrivateKey → Bytes → Bytes
  pub verify : Bytes → Bytes → Bytes → Bool
  pub sha256 : Bytes → Bytes
  pub hex_encode : Bytes → Bytes
  pub hex_decode : Bytes → Option Bytes
  pub length-public_of : (k : PrivateKey) → length (public_of k) ≡ 32
  pub length-sign : (k : PrivateKey) (m : Bytes) → length (sign k m) ≡ 64
  pub verify-sign : (k : PrivateKey) (m : Bytes) → verify (public_of k) m (sign k m) ≡ true
  pub length-sha256 : (m : Bytes) → length (sha256 m) ≡ 32
  pub hex_decode-hex_encode : (m : Bytes) → hex_decode (hex_encode m) ≡ some m

-- the provenance that a /resource response asserts
pub record Provenance : Type 0 where
  pub owner : Bytes
  pub pub_key_hex : Bytes
  pub info_hash : Bytes
  pub sha256_hex : Bytes
  pub content_type : Bytes
  pub owner_sig_verified : Bool
  pub zk_proof_hex : Bytes

abbrev pub flag : Bool → ℕ
flag true = 1
flag false = 0

-- ResourceManifest
unfoldable pub resource_manifest : Signing → Provenance → Bytes → Bytes
resource_manifest g p body =
    codes "ddns-resource-v1"
    ++ (str32 p.owner
        ++ (str32 p.pub_key_hex
            ++ (str32 p.info_hash
                ++ (str32 p.sha256_hex
                    ++ (str32 p.content_type
                        ++ (flag p.owner_sig_verified
                            ∷ (str32 p.zk_proof_hex ++ g.sha256 body)))))))

pub data VerifyError : Type 0 where
  bad_key bad_encoding invalid : VerifyError

-- the check of a decoded signature, shared by the two verifications
unfoldable pub check_sig : Signing → Bytes → Option Bytes → Bytes → Option VerifyError
check_sig g key none message = some bad_encoding
check_sig g key (some sig) message =
    if not (length sig == 64)
    then some bad_encoding
    else if not (g.verify key message sig)
    then some invalid
    else none

unfoldable pub check_key : Signing → Option Bytes → Option Bytes → Bytes → Option VerifyError
unfolding check_sig
check_key g none sig message = some bad_key
check_key g (some key) sig message =
    if not (length key == 32) then some bad_key else check_sig g key sig message

-- VerifyResourceSignature; there `bad_encoding` and `invalid` are one error, errBadResourceSig.
unfoldable pub verify_resource_signature :
    Signing → Bytes → Bytes → Provenance → Bytes → Option VerifyError
unfolding check_key
verify_resource_signature g resolver_pub_hex sig_hex p body =
    check_key g (g.hex_decode resolver_pub_hex) (g.hex_decode sig_hex) (resource_manifest g p body)

-- pki.Envelope
pub record Envelope : Type 0 where
  pub contents : Bytes
  pub resolver : Bytes
  pub signature : Bytes

-- SealEnvelope on the result of json.Marshal; `none` is its error.
unfoldable pub seal_envelope : (g : Signing) → g.PrivateKey → Option Bytes → Option Envelope
seal_envelope g key none = none
seal_envelope g key (some contents) = some (record {
  contents = contents;
  resolver = g.hex_encode (g.public_of key);
  signature = g.hex_encode (g.sign key contents);
})

unfoldable pub verify_envelope : Signing → Envelope → Option VerifyError
unfolding check_key
verify_envelope g env =
    check_key g (g.hex_decode env.resolver) (g.hex_decode env.signature) env.contents

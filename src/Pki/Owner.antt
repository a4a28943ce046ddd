-- ===== src/Pki/Owner.antt =====
-- resolver/internal/pki/owner.go: the message that owners sign, its signature and its verification.
use mathlib.Core.List.{Permᴰ}
use decentralized_dns.Base.{
  ℕ, ◌-◌, ◌+◌, ◌<◌, ◌%◌, Bytes, Bytes-discrete, List, [], ◌∷◌, ◌++◌, map, Bool, true, not, ◌&&◌,
  ◌||◌, Option, none, some, ◌≡◌, leb, ◌==◌, if◌then◌else◌, ite, codes, length, take, drop, all_of,
}
use decentralized_dns.Base.Ints.{be16, be32, be64}
use decentralized_dns.Base.Wire.{str16}
use decentralized_dns.Chain.Types.{Record}
use decentralized_dns.Query.Selector.{Pair, bytes_le}

-- sort.Slice with the byte order of the keys: a sorted reordering. It need not be stable.
unfoldable pub in_order : List Pair → Bool
in_order [] = true
in_order (p ∷ []) = true
in_order (p ∷ q ∷ ps) = bytes_le p.0 q.0 && in_order (q ∷ ps)

pub record SliceSort : Type 0 where
  pub sort : List Pair → List Pair
  pub sort-perm : (ps : List Pair) → Permᴰ (sort ps) ps
  pub in_order-sort : (ps : List Pair) → in_order (sort ps) ≡ true

-- accounts.TextHash and go-ethereum's secp256k1 functions; keys and addresses are abstract, and a
-- nil error is `some`.
pub record Secp : Type 1 where
  pub PublicKey : Type 0
  pub PrivateKey : Type 0
  pub public_key : PrivateKey → PublicKey
  pub text_hash : Bytes → Bytes
  pub sig_to_pub : Bytes → Bytes → Option PublicKey
  pub from_ecdsa_pub : PublicKey → Bytes
  pub pubkey_to_address : PublicKey → Bytes
  pub sign : Bytes → PrivateKey → Option Bytes
  -- "The produced signature is in the [R || S || V] format where V is 0 or 1."
  pub sign_format :
      (d : Bytes) (k : PrivateKey) (s : Bytes)
      → sign d k ≡ some s
      → (rs : Bytes) × (v : ℕ) × (length rs ≡ 64) × (v < 2) × (s ≡ rs ++ (v ∷ []))
  pub sig_to_pub-sign :
      (d : Bytes) (k : PrivateKey) (s : Bytes)
      → sign d k ≡ some s
      → sig_to_pub d s ≡ some (public_key k)

-- The loop that pairs names with values; `none` is the panic of an index out of range.
unfoldable pub field_pairs : List Bytes → List Bytes → Option (List Pair)
field_pairs [] vals = some []
field_pairs (n ∷ ns) [] = none
field_pairs (n ∷ ns) (v ∷ vs) = elim (field_pairs ns vs) [
  | none ↦ none
  | some ps ↦ some ((n, v) ∷ ps)
]

unfoldable pub write_pairs : List Pair → Bytes
write_pairs [] = []
write_pairs ((k, v) ∷ ps) = str16 k ++ (str16 v ++ write_pairs ps)

unfoldable pub write_message : Bytes → Record → List Pair → Bytes
unfolding write_pairs
write_message name r pairs =
    codes "ddns-record-v2"
    ++ (str16 name
        ++ (str16 r.rtype
            ++ (str16 r.selector
                ++ (be32 r.ttl
                    ++ (be64 r.generation ++ (be16 (length pairs) ++ write_pairs pairs))))))

unfoldable pub record_message : SliceSort → Bytes → Record → Option Bytes
record_message o name r = elim (field_pairs r.field_names r.field_vals) [
  | none ↦ none
  | some pairs ↦ some (write_message name r (o.sort pairs))
]

unfoldable pub is_placeholder_pub_key : Bytes → Bool
is_placeholder_pub_key [] = true
is_placeholder_pub_key (b ∷ bs) =
    all_of (λ c. c == 0) (b ∷ bs)
    || ((length (b ∷ bs) == 65) && (b == 0x04) && all_of (λ c. c == 0) bs)

-- the reasons that ErrBadSignature is wrapped with; `index_panic` stands for a panic
pub data SigError : Type 0 where
  arrays_differ wrong_length not_recovered key_mismatch address_mismatch index_panic : SigError

-- sig with sig[64] replaced
abbrev pub at_v : (ℕ → ℕ) → Bytes → Bytes
at_v f sig = take 64 sig ++ map f (drop 64 sig)

abbrev pub lower_v : ℕ → ℕ
lower_v v = if leb 27 v then v - 27 else v

-- sig[64] += 27, on a byte
abbrev pub raise_v : ℕ → ℕ
raise_v v = (v + 27) % 256

-- The recovery and the two comparisons. `none` is a nil error.
unfoldable pub check_recovered : (c : Secp) → Option c.PublicKey → Bytes → Bytes → Option SigError
unfolding is_placeholder_pub_key
check_recovered c none owner pub_key = some not_recovered
check_recovered c (some recovered) owner pub_key =
    if is_placeholder_pub_key pub_key
    then ite (Bytes-discrete (c.pubkey_to_address recovered) owner) none (some address_mismatch)
    else ite (Bytes-discrete (c.from_ecdsa_pub recovered) pub_key)
        (ite (Bytes-discrete (c.pubkey_to_address recovered) owner) none (some address_mismatch))
        (some key_mismatch)

unfoldable pub verify_owner_sig :
    (c : Secp) → SliceSort → Bytes → Record → Bytes → Bytes → Option SigError
unfolding record_message check_recovered
verify_owner_sig c o name r owner pub_key =
    if not (length r.field_names == length r.field_vals)
    then some arrays_differ
    else if not (length r.owner_sig == 65)
    then some wrong_length
    else elim (record_message o name r) [
      | none ↦ some index_panic
      | some m ↦
          check_recovered c (c.sig_to_pub (c.text_hash m) (at_v lower_v r.owner_sig)) owner pub_key
    ]

-- `none` is an error of crypto.Sign, or the panic of RecordMessage.
unfoldable pub sign_record : (c : Secp) → SliceSort → Bytes → Record → c.PrivateKey → Option Bytes
unfolding record_message
sign_record c o name r key = elim (record_message o name r) [
  | none ↦ none
  | some m ↦ elim (c.sign (c.text_hash m) key) [ none ↦ none | some sig ↦ some (at_v raise_v sig) ]
]

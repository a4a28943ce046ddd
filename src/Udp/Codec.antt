-- ===== src/Udp/Codec.antt =====
-- resolver/internal/server/udp.go: encoding and decoding of packets. A packet is a list of bytes,
-- and the loops' index is the part of the packet that is still to be read.
use decentralized_dns.Base.{
  ℕ, zero, suc, ◌+◌, ◌*◌, Bytes, Bytes-discrete, ℕ_discrete, List, [], ◌∷◌, ◌++◌, Bool, true, false,
  ◌||◌, none, some, ltb, ◌==◌, if◌then◌else◌, ite, codes, length, take, drop,
}
use decentralized_dns.Base.Ints.{be16}
use decentralized_dns.Base.Maps.{GoMap, update}
use decentralized_dns.Base.Text.{Unicode}
use decentralized_dns.Query.Selector
use decentralized_dns.Query.Selector.{Query}

-- `stuck` is no Go value: a loop ran out of fuel
pub data Error : Type 0 where
  too_short bad_magic bad_version bad_flags truncated_header truncated_value duplicate_tlv : Error
  query_error : Selector.Error → Error
  stuck : Error

-- a value, or a decoding error
pub data Result {ℓ} (A : Type ℓ) : Type ℓ where
  err : Error → Result A
  ok : A → Result A

-- a test that stands for an early return with an error
abbrev pub guard : (test : Bool) (why : Error) → Result (Unit {0})
guard false why = err why
guard true why = ok tt

-- the rest of a function, after a call that may fail
infixl 5 ◌>>=◌
abbrev pub ◌>>=◌ {ℓ κ} : {X : Type ℓ} {Y : Type κ} → Result X → (X → Result Y) → Result Y
err why >>= next = err why
ok x >>= next = next x

infixl 5 ◌>>◌
abbrev pub ◌>>◌ {ℓ} : {Y : Type ℓ} (first : Result (Unit {0})) → Result Y → Result Y
first >> next = first >>= λ done. next

-- an error of the query package, passed on
abbrev pub lift {ℓ} : {A : Type ℓ} → Selector.Result A → Result A
lift (Selector.ok a) = ok a
lift (Selector.err e) = err (query_error e)

abbrev pub udp_version : ℕ
udp_version = 1

abbrev pub tlv_name : ℕ
tlv_name = 1

abbrev pub tlv_type : ℕ
tlv_type = 2

abbrev pub tlv_selector : ℕ
tlv_selector = 3

abbrev pub udp_magic : Bytes
udp_magic = codes "DDNS"

-- udpTLV
pub record Tlv : Type 0 where
  pub typ : ℕ
  pub val : Bytes

-- one round of the loop of encodeUDPResponse: a value over 0xffff bytes is left out
unfoldable pub encode_tlv : Tlv → Bytes
encode_tlv t = if ltb 0xffff (length t.val) then [] else t.typ ∷ (be16 (length t.val) ++ t.val)

unfoldable pub encode_tlvs : List Tlv → Bytes
unfolding encode_tlv
encode_tlvs [] = []
encode_tlvs (t ∷ ts) = encode_tlv t ++ encode_tlvs ts

unfoldable pub encode_udp_response : ℕ → List Tlv → Bytes
encode_udp_response status tlvs = udp_magic ++ (udp_version ∷ status ∷ encode_tlvs tlvs)

unfoldable pub encode_udp_query : Query → Bytes
encode_udp_query q = encode_udp_response 0 (
    record { typ = tlv_name; val = q.name }
    ∷ record { typ = tlv_type; val = q.rtype }
    ∷ record { typ = tlv_selector; val = q.selector }
    ∷ [])

-- the TLV header and value in front of a packet's rest: type, value, and what follows
unfoldable pub read_tlv : Bytes → Result (Tlv × Bytes)
read_tlv (typ ∷ hi ∷ lo ∷ rest) =
    let n = hi * 256 + lo in
    if ltb (length rest) n
    then err truncated_value
    else ok (record { typ = typ; val = take n rest }, drop n rest)
read_tlv _ = err truncated_header

-- the branch of decodeUDPQuery on a TLV that was read
unfoldable pub keep_field : GoMap ℕ Bytes → Tlv → Result (GoMap ℕ Bytes)
keep_field fields t =
    if t.typ == tlv_name || t.typ == tlv_type || t.typ == tlv_selector
    then (elim (fields t.typ) [
      | some old ↦ err duplicate_tlv
      | none ↦ ok (update ℕ_discrete fields t.typ (some t.val))
    ])
    else ok fields

-- the loop of decodeUDPQuery
unfoldable pub query_fields : ℕ → Bytes → GoMap ℕ Bytes → Result (GoMap ℕ Bytes)
unfolding read_tlv keep_field
query_fields fuel [] fields = ok fields
query_fields zero (b ∷ bs) fields = err stuck
query_fields (suc fuel) (b ∷ bs) fields = do
  (t, rest) ← read_tlv (b ∷ bs)
  fields' ← keep_field fields t
  query_fields fuel rest fields'

-- the value of a map of strings at a key: empty where the key is missing
abbrev pub field_or_empty : GoMap ℕ Bytes → ℕ → Bytes
field_or_empty m k = elim (m k) [ none ↦ [] | some v ↦ v ]

-- the header checks, up to the sixth byte, which the caller reads
unfoldable pub read_header : Bytes → Result (ℕ × Bytes)
read_header (m0 ∷ m1 ∷ m2 ∷ m3 ∷ version ∷ last ∷ rest) = do
  guard (ite (Bytes-discrete (m0 ∷ m1 ∷ m2 ∷ m3 ∷ []) udp_magic) true false) bad_magic
  guard (version == udp_version) bad_version
  ok (last, rest)
read_header _ = err too_short

unfoldable pub decode_udp_query : Unicode → Bytes → Result Query
unfolding read_header query_fields
decode_udp_query u packet = do
  (flags, rest) ← read_header packet
  guard (flags == 0) bad_flags
  fields ← query_fields (length rest) rest (λ k. none)
  pairs ← lift (Selector.parse_pairs u (field_or_empty fields tlv_selector))
  lift (Selector.new u (field_or_empty fields tlv_name) (field_or_empty fields tlv_type) pairs)

-- values[typ] = append(values[typ], value)
unfoldable pub append_value : (ℕ → List Bytes) → Tlv → ℕ → List Bytes
append_value values t k = ite (ℕ_discrete k t.typ) (values k ++ (t.val ∷ [])) (values k)

-- the loop of decodeUDPResponse
unfoldable pub response_values : ℕ → Bytes → (ℕ → List Bytes) → Result (ℕ → List Bytes)
unfolding read_tlv append_value
response_values fuel [] values = ok values
response_values zero (b ∷ bs) values = err stuck
response_values (suc fuel) (b ∷ bs) values = do
  (t, rest) ← read_tlv (b ∷ bs)
  response_values fuel rest (append_value values t)

unfoldable pub decode_udp_response : Bytes → Result (ℕ × (ℕ → List Bytes))
unfolding read_header response_values
decode_udp_response packet = do
  (status, rest) ← read_header packet
  values ← response_values (length rest) rest (λ k. [])
  ok (status, values)

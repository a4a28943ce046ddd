-- ===== src/Udp/Total.antt =====
-- resolver/internal/server/udp.go: the fuel of the decoders' loops.
use decentralized_dns.Base.{
  ℕ, zero, suc, ◌+◌, ◌*◌, ◌≤◌, Bytes, none, List, [], ◌∷◌, length, length-drop-le, ◌≡◌, ◌≢◌, ◌⊎◌,
  inl, inr, refl, arith, Bool, true, false, ◌==◌,
}
use decentralized_dns.Base.Maps.{GoMap}
use decentralized_dns.Base.Text.{Unicode}
use decentralized_dns.Query.Selector
use decentralized_dns.Udp.Codec.{
  Error, stuck, bad_flags, Result, ok, err, Tlv, lift, guard, ◌>>=◌, read_header, read_tlv,
  keep_field, query_fields, decode_udp_query, append_value, response_values, decode_udp_response,
  field_or_empty, tlv_selector,
}

Result-cases {ℓ} :
    {A : Type ℓ} (r : Result A) → ((a : A) × (r ≡ ok a)) ⊎ ((e : Error) × (r ≡ err e))
Result-cases (ok a) = inl (a, refl)
Result-cases (err e) = inr (e, refl)

read_tlv-shorter :
    (b : ℕ) (bs : Bytes) (t : Tlv) (rest : Bytes)
    → read_tlv (b ∷ bs) ≡ ok (t, rest)
    → length rest ≤ length bs
unfolding read_tlv
read_tlv-shorter b [] t rest h = cc
read_tlv-shorter b (c ∷ []) t rest h = cc
read_tlv-shorter b (c ∷ d ∷ bs) t rest h = ground (arith, length-drop-le (c * 256 + d) bs)

read_tlv-ne-stuck : (bs : Bytes) → read_tlv bs ≢ err stuck
unfolding read_tlv
read_tlv-ne-stuck [] h = cc
read_tlv-ne-stuck (a ∷ []) h = cc
read_tlv-ne-stuck (a ∷ b ∷ []) h = cc
read_tlv-ne-stuck (a ∷ b ∷ c ∷ bs) h = ground arith

response_values-ne-stuck :
    (fuel : ℕ) (bs : Bytes) (values : ℕ → List Bytes)
    → length bs ≤ fuel
    → response_values fuel bs values ≢ err stuck
unfolding response_values
response_values-ne-stuck fuel [] values h e = cc
response_values-ne-stuck zero (b ∷ bs) values h e = omega arith
response_values-ne-stuck (suc fuel) (b ∷ bs) values h e = elim (Result-cases (read_tlv (b ∷ bs))) [
  | inl ((t, rest), r) ↦
      response_values-ne-stuck fuel rest (append_value values t)
        (omega (arith, read_tlv-shorter b bs t rest r)) (rw r at e)
  | inr (x, r) ↦ read_tlv-ne-stuck (b ∷ bs) (cc (rw r at e))
]

keep_field-ne-stuck : (fields : GoMap ℕ Bytes) (t : Tlv) → keep_field fields t ≢ err stuck
unfolding keep_field
keep_field-ne-stuck fields t e = ground arith

query_fields-ne-stuck :
    (fuel : ℕ) (bs : Bytes) (fields : GoMap ℕ Bytes)
    → length bs ≤ fuel
    → query_fields fuel bs fields ≢ err stuck
unfolding query_fields
query_fields-ne-stuck fuel [] fields h e = cc
query_fields-ne-stuck zero (b ∷ bs) fields h e = omega arith
query_fields-ne-stuck (suc fuel) (b ∷ bs) fields h e = elim (Result-cases (read_tlv (b ∷ bs))) [
  | inl ((t, rest), r) ↦ elim (Result-cases (keep_field fields t)) [
    | inl (fields', k) ↦
        query_fields-ne-stuck fuel rest fields' (omega (arith, read_tlv-shorter b bs t rest r))
          (rw (r, k) at e)
    | inr (x, k) ↦ keep_field-ne-stuck fields t (cc (rw (r, k) at e))
  ]
  | inr (x, r) ↦ read_tlv-ne-stuck (b ∷ bs) (cc (rw r at e))
]

read_header-ne-stuck : (bs : Bytes) → read_header bs ≢ err stuck
unfolding read_header
read_header-ne-stuck [] e = cc
read_header-ne-stuck (a ∷ []) e = cc
read_header-ne-stuck (a ∷ b ∷ []) e = cc
read_header-ne-stuck (a ∷ b ∷ c ∷ []) e = cc
read_header-ne-stuck (a ∷ b ∷ c ∷ d ∷ []) e = cc
read_header-ne-stuck (a ∷ b ∷ c ∷ d ∷ v ∷ []) e = cc
read_header-ne-stuck (a ∷ b ∷ c ∷ d ∷ v ∷ s ∷ rest) e = ground arith

guard-ne-stuck : (b : Bool) → guard b bad_flags ≢ err stuck
guard-ne-stuck true e = cc
guard-ne-stuck false e = cc

bind-ne-stuck {ℓ κ} :
    {A : Type ℓ} {B : Type κ} (m : Result A) (f : A → Result B)
    → m ≢ err stuck
    → ((a : A) → f a ≢ err stuck)
    → (m >>= f) ≢ err stuck
bind-ne-stuck (ok a) f h g = g a
bind-ne-stuck (err e) f h g = λ q. h cc

lift-ne-stuck {ℓ} : {A : Type ℓ} (r : Selector.Result A) → lift r ≢ err stuck
lift-ne-stuck (Selector.ok a) e = cc
lift-ne-stuck (Selector.err x) e = cc

-- The loop of `decodeUDPResponse` ends on every packet: its fuel, the packet's length, is enough.
pub decode_udp_response-ne-stuck : (packet : Bytes) → decode_udp_response packet ≢ err stuck
unfolding decode_udp_response
decode_udp_response-ne-stuck packet e = elim (Result-cases (read_header packet)) [
  | inl ((status, rest), r) ↦ elim (Result-cases (response_values (length rest) rest (λ k. []))) [
    | inl (values, v) ↦ cc (rw (r, v) at e)
    | inr (x, v) ↦
        response_values-ne-stuck (length rest) rest (λ k. []) (omega arith) (cc (rw (r, v) at e))
  ]
  | inr (x, r) ↦ read_header-ne-stuck packet (cc (rw r at e))
]

-- The loop of `decodeUDPQuery` ends on every packet.
pub decode_udp_query-ne-stuck :
    (u : Unicode) (packet : Bytes) → decode_udp_query u packet ≢ err stuck
unfolding decode_udp_query
decode_udp_query-ne-stuck u packet =
    bind-ne-stuck (read_header packet) _ (read_header-ne-stuck packet) λ p.
      bind-ne-stuck (guard (p.0 == 0) bad_flags) _ (guard-ne-stuck (p.0 == 0)) λ x.
        bind-ne-stuck (query_fields (length p.1) p.1 (λ k. none)) _
          (query_fields-ne-stuck (length p.1) p.1 (λ k. none) (omega arith))
          λ fields.
            bind-ne-stuck (lift (Selector.parse_pairs u (field_or_empty fields tlv_selector))) _
              (lift-ne-stuck _) λ pairs. lift-ne-stuck _

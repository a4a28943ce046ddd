-- ===== src/Udp/RoundTrip.antt =====
-- resolver/internal/server/udp.go: what the decoder of responses reads of the encoder's packets.
use decentralized_dns.Base.{
  ℕ, suc, ◌+◌, ◌-◌, ◌≤◌, ◌<◌, Bytes, Bytes-discrete, List, [], ◌∷◌, ◌++◌, true, not, ◌&&◌, ltb,
  ◌==◌, if◌then◌else◌, length, length-append, take-append, drop-append, append_assoc, append-nil,
  ◌≡◌, refl, sym, ap, ◌∙◌, subst, fun_ext, arith, Bool-cases, inl, inr,
}
use decentralized_dns.Base.Ints.{be16_value}
use decentralized_dns.Udp.Codec.{
  Result, ok, ◌>>=◌, Tlv, encode_tlv, encode_tlvs, encode_udp_response, read_tlv, read_header,
  append_value, response_values, decode_udp_response, udp_magic, udp_version,
}

abbrev pub FitsTlv : Tlv → Type 0
FitsTlv t = length t.val ≤ 0xffff

pub read_tlv-encode_tlv :
    (t : Tlv) (rest : Bytes) → FitsTlv t → read_tlv (encode_tlv t ++ rest) ≡ ok (t, rest)
unfolding read_tlv encode_tlv
read_tlv-encode_tlv t rest h =
    let n = length t.val in
    ground (
      arith,
      be16_value n (omega arith),
      length-append t.val rest,
      take-append t.val rest n refl,
      drop-append t.val rest n refl,
    )

-- the values under one type, in the order sent, without those that are too long
abbrev pub sent : ℕ → List Tlv → List Bytes
sent k [] = []
sent k (t ∷ ts) =
    if not (ltb 0xffff (length t.val)) && k == t.typ then t.val ∷ sent k ts else sent k ts

response_values_step :
    (fuel : ℕ) (t : Tlv) (bs : Bytes) (rest : Bytes) (values : ℕ → List Bytes)
    → 0 < length bs
    → read_tlv bs ≡ ok (t, rest)
    → response_values (suc fuel) bs values ≡ response_values fuel rest (append_value values t)
unfolding response_values
response_values_step fuel t [] rest values h e = absurd (omega arith)
response_values_step fuel t (b ∷ bs) rest values h e = rw e

pub length-encode_tlv : (t : Tlv) → FitsTlv t → length (encode_tlv t) ≡ 3 + length t.val
unfolding encode_tlv
length-encode_tlv t h = ground arith

encode_tlv_long : (t : Tlv) → ltb 0xffff (length t.val) ≡ true → encode_tlv t ≡ []
unfolding encode_tlv
encode_tlv_long t h = rw h

append_value-sent :
    (values : ℕ → List Bytes) (t : Tlv) (ts : List Tlv) (k : ℕ)
    → FitsTlv t
    → append_value values t k ++ sent k ts ≡ values k ++ sent k (t ∷ ts)
unfolding append_value
append_value-sent values t ts k h = ground (arith, append_assoc (values k) (t.val ∷ []) (sent k ts))

response_values-FitsTlv :
    (fuel : ℕ) (t : Tlv) (ts : List Tlv) (values : ℕ → List Bytes)
    → FitsTlv t
    → length (encode_tlvs (t ∷ ts)) ≤ fuel
    → ((f : ℕ)
        → length (encode_tlvs ts) ≤ f
        → response_values f (encode_tlvs ts) (append_value values t)
          ≡ ok (λ k. append_value values t k ++ sent k ts))
    → response_values fuel (encode_tlvs (t ∷ ts)) values ≡ ok (λ k. values k ++ sent k (t ∷ ts))
response_values-FitsTlv fuel t ts values fit h ih =
    let whole : encode_tlvs (t ∷ ts) ≡ encode_tlv t ++ encode_tlvs ts =
      unfold encode_tlvs in refl in
    let size = length-append (encode_tlv t) (encode_tlvs ts) in
    let enough : length (encode_tlv t ++ encode_tlvs ts) ≤ fuel =
      subst (λ b. length b ≤ fuel) whole h in
    let n = fuel - 1 in
    let more : fuel ≡ suc n = omega (arith, length-encode_tlv t fit) in
    ap (λ f. response_values f (encode_tlvs (t ∷ ts)) values) more
    ∙ ap (λ b. response_values (suc n) b values) whole
    ∙ response_values_step n t (encode_tlv t ++ encode_tlvs ts) (encode_tlvs ts) values
        (omega (arith, length-encode_tlv t fit)) (read_tlv-encode_tlv t (encode_tlvs ts) fit)
    ∙ ih n (omega (arith, length-encode_tlv t fit))
    ∙ ap ok (fun_ext (λ k. append_value-sent values t ts k fit))

response_values-encode_tlvs :
    (ts : List Tlv) (fuel : ℕ) (values : ℕ → List Bytes)
    → length (encode_tlvs ts) ≤ fuel
    → response_values fuel (encode_tlvs ts) values ≡ ok (λ k. values k ++ sent k ts)
response_values-encode_tlvs [] fuel values h =
    unfold encode_tlvs response_values in ap ok (fun_ext (λ k. sym (append-nil (values k))))
response_values-encode_tlvs (t ∷ ts) fuel values h = elim (Bool-cases (ltb 0xffff (length t.val))) [
  | inl long ↦
      let same : encode_tlvs (t ∷ ts) ≡ encode_tlvs ts =
        unfold encode_tlvs in rw (encode_tlv_long t long) in
      ap (λ b. response_values fuel b values) same
      ∙ response_values-encode_tlvs ts fuel values (subst (λ b. length b ≤ fuel) same h)
      ∙ ap ok (fun_ext (λ k. ground arith))
  | inr short ↦
      response_values-FitsTlv fuel t ts values (ground arith) h
        (λ f hf. response_values-encode_tlvs ts f (append_value values t) hf)
]

pub read_header-ok :
    (last : ℕ) (rest : Bytes)
    → read_header (udp_magic ++ (udp_version ∷ last ∷ rest)) ≡ ok (last, rest)
unfolding read_header Bytes-discrete
read_header-ok last rest = refl

-- A response decodes to its status and, for each type, the values sent under it in order; a value
-- that does not fit the two-byte length is left out.
pub decode_udp_response-encode_udp_response :
    (status : ℕ) (ts : List Tlv)
    → decode_udp_response (encode_udp_response status ts) ≡ ok (status, λ k. sent k ts)
unfolding decode_udp_response encode_udp_response
decode_udp_response-encode_udp_response status ts =
    let bs = encode_tlvs ts in
    ap
      (λ (m : Result (ℕ × Bytes)).
        m >>= λ p. response_values (length p.1) p.1 (λ k. []) >>= λ values. ok (p.0, values))
      (read_header-ok status bs)
    ∙ ap (λ (m : Result (ℕ → List Bytes)). m >>= λ values. ok (status, values))
        (response_values-encode_tlvs ts (length bs) (λ k. []) (omega arith))

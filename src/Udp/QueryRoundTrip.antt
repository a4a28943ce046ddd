-- ===== src/Udp/QueryRoundTrip.antt =====
-- resolver/internal/server/udp.go: the packet of a query against the decoder.
use decentralized_dns.Base.{
  ℕ, suc, ◌-◌, ◌≤◌, ◌<◌, Bytes, ℕ_discrete, List, [], ◌∷◌, ◌++◌, true, none, some, length,
  length-append, ◌≡◌, refl, ap, ◌∙◌, arith,
}
use decentralized_dns.Base.Maps.{GoMap, update}
use decentralized_dns.Base.Text.{Unicode}
use decentralized_dns.Base.TextLaws.{UnicodeLaws}
use decentralized_dns.Query.Grammar.{name_ok, type_ok}
use decentralized_dns.Query.Names.{name_ok-name_rule}
use decentralized_dns.Query.Selector
use decentralized_dns.Query.Selector.{Query, Pair, canonical_selector}
use decentralized_dns.Query.RoundTrip.{parse_pairs-canonical_selector}
use decentralized_dns.Udp.Codec.{
  ok, Tlv, encode_tlv, encode_tlvs, encode_udp_response, encode_udp_query, read_tlv, keep_field,
  query_fields, decode_udp_query, tlv_name, tlv_type, tlv_selector,
}
use decentralized_dns.Udp.RoundTrip.{
  FitsTlv, read_tlv-encode_tlv, length-encode_tlv, read_header-ok,
}

query_fields_round :
    (n : ℕ) (t : Tlv) (bs rest : Bytes) (fields fields' : GoMap ℕ Bytes)
    → 0 < length bs
    → read_tlv bs ≡ ok (t, rest)
    → keep_field fields t ≡ ok fields'
    → query_fields (suc n) bs fields ≡ query_fields n rest fields'
unfolding query_fields
query_fields_round n t [] rest fields fields' h e k = absurd (omega arith)
query_fields_round n t (b ∷ bs) rest fields fields' h e k = rw (e, k)

query_fields_step :
    (fuel : ℕ) (t : Tlv) (rest : Bytes) (fields fields' : GoMap ℕ Bytes)
    → FitsTlv t
    → keep_field fields t ≡ ok fields'
    → length (encode_tlv t ++ rest) ≤ fuel
    → (f : ℕ) × (length rest ≤ f)
      × (query_fields fuel (encode_tlv t ++ rest) fields ≡ query_fields f rest fields')
query_fields_step fuel t rest fields fields' fit keep h =
    let n = fuel - 1 in
    let size = length-append (encode_tlv t) rest in
    let long = length-encode_tlv t fit in
    let more : fuel ≡ suc n = omega arith in
    (
      n,
      omega arith,
      ap (λ f. query_fields f (encode_tlv t ++ rest) fields) more
          ∙ query_fields_round n t (encode_tlv t ++ rest) rest fields fields' (omega arith)
              (read_tlv-encode_tlv t rest fit) keep,
    )

-- the three TLVs of a query
abbrev name_tlv : Query → Tlv
name_tlv q = record { typ = tlv_name; val = q.name }

abbrev type_tlv : Query → Tlv
type_tlv q = record { typ = tlv_type; val = q.rtype }

abbrev selector_tlv : Query → Tlv
selector_tlv q = record { typ = tlv_selector; val = q.selector }

abbrev no_fields : GoMap ℕ Bytes
no_fields k = none

abbrev with_name : Query → GoMap ℕ Bytes
with_name q = update ℕ_discrete no_fields tlv_name (some q.name)

abbrev with_type : Query → GoMap ℕ Bytes
with_type q = update ℕ_discrete (with_name q) tlv_type (some q.rtype)

abbrev with_selector : Query → GoMap ℕ Bytes
with_selector q = update ℕ_discrete (with_type q) tlv_selector (some q.selector)

query_fields-query :
    (q : Query) (fuel : ℕ)
    → FitsTlv (name_tlv q)
    → FitsTlv (type_tlv q)
    → FitsTlv (selector_tlv q)
    → length (encode_tlvs (name_tlv q ∷ type_tlv q ∷ selector_tlv q ∷ [])) ≤ fuel
    → query_fields fuel (encode_tlvs (name_tlv q ∷ type_tlv q ∷ selector_tlv q ∷ [])) no_fields
      ≡ ok (with_selector q)
unfolding encode_tlvs query_fields keep_field ℕ_discrete
query_fields-query q fuel fn ft fs h =
    let last = encode_tlv (selector_tlv q) ++ [] in
    let tail = encode_tlv (type_tlv q) ++ last in
    let (f1, h1, e1) = query_fields_step fuel (name_tlv q) tail no_fields (with_name q) fn refl h in
    let (f2, h2, e2) =
      query_fields_step f1 (type_tlv q) last (with_name q) (with_type q) ft refl h1 in
    let (f3, h3, e3) =
      query_fields_step f2 (selector_tlv q) [] (with_type q) (with_selector q) fs refl h2 in
    e1 ∙ e2 ∙ e3

-- the parts of a query that New accepted
pub new-parts :
    (u : Unicode) (name rtype : Bytes) (ps : List Pair) (q : Query)
    → Selector.new u name rtype ps ≡ Selector.ok q
    → (name_ok q.name ≡ true)
      × (type_ok q.rtype ≡ true)
      × (canonical_selector u ps ≡ Selector.ok q.selector)
unfolding Selector.new
new-parts u name rtype ps q h = ground arith

-- The client's packet for a query that `New` accepted is decoded to that query, if its selector
-- fits a TLV, under the laws that are assumed of trimming texts that are not ASCII.
pub decode_udp_query-encode_udp_query :
    (u : Unicode)
    → UnicodeLaws u
    → (name rtype : Bytes) (ps : List Pair) (q : Query)
    → Selector.new u name rtype ps ≡ Selector.ok q
    → length q.selector ≤ 0xffff
    → decode_udp_query u (encode_udp_query q) ≡ ok q
unfolding decode_udp_query encode_udp_query encode_udp_response ℕ_discrete Selector.new
decode_udp_query-encode_udp_query u laws name rtype ps q h fit =
    let (good, typed, canon) = new-parts u name rtype ps q h in
    let (qs, read, same) = parse_pairs-canonical_selector u laws ps q.selector canon in
    let bs = encode_tlvs (name_tlv q ∷ type_tlv q ∷ selector_tlv q ∷ []) in
    let named : length q.name ≤ 0xffff = ground (arith, name_ok-name_rule q.name) in
    let short : length q.rtype ≤ 0xffff = unfold type_ok in ground arith in
    rw (
      read_header-ok 0 bs,
      query_fields-query q (length bs) named short fit (omega arith),
      read,
      good,
      typed,
      same,
    )

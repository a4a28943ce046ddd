-- ===== src/Tests/QueryTests.antt =====
-- resolver/internal/query/query.go and the packets of resolver/internal/server/udp.go at concrete inputs.

use mathlib.Core.List.Permᴰ.{swap}
use decentralized_dns.Base.{Bytes, List, [], ◌∷◌, codes, ◌≡◌, ◌≢◌, refl, arith}
use decentralized_dns.Base.{Bytes-discrete}
use decentralized_dns.Base.Text.{to_lower, to_upper, trim_space, atoi, itoa, join}
use decentralized_dns.Query.Grammar.{name_ok, type_ok, key_ok}
use decentralized_dns.Query.Selector
use decentralized_dns.Query.Selector.{Pair, Query, canonical_selector, parse_selector_string}
use decentralized_dns.Query.Order.{canonical_selector-perm}
use decentralized_dns.Query.RoundTrip.{parse_selector_string-canonical_selector}
use decentralized_dns.Udp.Codec.{
  Tlv, encode_udp_response, decode_udp_response, encode_udp_query, decode_udp_query, ok, err, stuck,
}
use decentralized_dns.Udp.RoundTrip.{sent, decode_udp_response-encode_udp_response}
use decentralized_dns.Udp.QueryRoundTrip.{decode_udp_query-encode_udp_query}
use decentralized_dns.Udp.Total.{decode_udp_query-ne-stuck}
use decentralized_dns.Tests.Instances.{plain, plain_laws}

abbrev web_pairs : List Pair
web_pairs = (codes "Port", codes "080") ∷ (codes "service", codes "http") ∷ []

abbrev swapped_pairs : List Pair
swapped_pairs = (codes "service", codes "http") ∷ (codes "Port", codes "080") ∷ []

abbrev web_selector : Bytes
web_selector = codes "port=80&service=HTTP"

canonical : canonical_selector plain web_pairs ≡ Selector.ok web_selector
unfolding canonical_selector key_ok to_lower trim_space Bytes-discrete atoi to_upper join itoa
canonical = refl

canonical_selector-perm_example : canonical_selector plain swapped_pairs ≡ Selector.ok web_selector
canonical_selector-perm_example =
    canonical_selector-perm plain web_pairs swapped_pairs web_selector ∣ swap refl refl ∣₁ canonical

parse_selector_string-canonical_selector_example :
    parse_selector_string plain web_selector ≡ Selector.ok web_selector
parse_selector_string-canonical_selector_example =
    parse_selector_string-canonical_selector plain plain_laws web_pairs web_selector canonical

abbrev web_query : Query
web_query = record { name = codes "alice"; rtype = codes "A"; selector = web_selector }

made : Selector.new plain (codes "alice") (codes "A") web_pairs ≡ Selector.ok web_query
unfolding Selector.new name_ok type_ok canonical_selector key_ok to_lower trim_space Bytes-discrete
    atoi to_upper join itoa
made = refl

decode_udp_query-encode_udp_query_example :
    decode_udp_query plain (encode_udp_query web_query) ≡ ok web_query
decode_udp_query-encode_udp_query_example =
    decode_udp_query-encode_udp_query plain plain_laws (codes "alice") (codes "A") web_pairs
      web_query made (omega arith)

abbrev two_tlvs : List Tlv
two_tlvs = record { typ = 100; val = codes "x" } ∷ record { typ = 101; val = codes "yz" } ∷ []

decode_udp_response-encode_udp_response_example :
    decode_udp_response (encode_udp_response 2 two_tlvs) ≡ ok (2, λ k. sent k two_tlvs)
decode_udp_response-encode_udp_response_example = decode_udp_response-encode_udp_response 2 two_tlvs

decode_udp_query-ne-stuck_example : decode_udp_query plain (codes "DDNS12345") ≢ err stuck
decode_udp_query-ne-stuck_example = decode_udp_query-ne-stuck plain (codes "DDNS12345")

-- ===== src/Lookup/Honest.antt =====
-- The lookup client of resolver/cmd/ddns-lookup/main.go against the handler of
-- resolver/internal/server/rest.go that answers it.
use decentralized_dns.Base.{
  Bytes, Bytes-discrete, List, [], ◌∷◌, true, none, some, ite, codes, length, ◌≡◌, ◌≢◌, refl, ap,
  ◌∙◌, inl, arith,
}
use decentralized_dns.Base.Text.{Unicode}
use decentralized_dns.Base.TextLaws.{UnicodeLaws}
use decentralized_dns.Chain.Types.{Record}
use decentralized_dns.Query.Grammar.{name_ok, type_ok}
use decentralized_dns.Query.RoundTrip.{parse_pairs-canonical_selector}
use decentralized_dns.Query.Selector
use decentralized_dns.Query.Selector.{Query, Pair, parse_pairs, canonical_selector}
use decentralized_dns.Pki.Owner.{Secp, SliceSort, record_message, write_message, verify_owner_sig}
use decentralized_dns.Pki.Resource.{Signing}
use decentralized_dns.Zk.Pack.{Gnark}
use decentralized_dns.Lookup.Compare.{Decoding, rebuilt, record_from_response}
use decentralized_dns.Lookup.Client.{response_of}
use decentralized_dns.Server.Handle.{QueryResult, found}
use decentralized_dns.Server.Rest.{
  Params, parsed, from_result, explicit_params, add_params, parse_resolve_query, to_record_json,
  match,
}
use decentralized_dns.Udp.QueryRoundTrip.{new-parts}

-- the parameters of the URL that the client makes of its query
abbrev pub sent : Query → Params
sent q k = ite (Bytes-discrete k (codes "name")) q.name (
    ite (Bytes-discrete k (codes "type")) q.rtype
      (ite (Bytes-discrete k (codes "selector")) q.selector []))

add_params-skip :
    (params : Params) (k : Bytes) (ks : List Bytes) (pairs : List Pair)
    → params k ≡ []
    → add_params params (k ∷ ks) pairs ≡ add_params params ks pairs
unfolding add_params
add_params-skip params k ks pairs h = ground arith

add_params-none :
    (params : Params) (pairs : List Pair)
    → params (codes "port") ≡ []
    → params (codes "transport") ≡ []
    → params (codes "service") ≡ []
    → add_params params explicit_params pairs ≡ inl pairs
add_params-none params pairs p t s =
    add_params-skip params (codes "port") _ pairs p
    ∙ add_params-skip params (codes "transport") _ pairs t
    ∙ add_params-skip params (codes "service") _ pairs s
    ∙ unfold add_params in refl

-- Without explicit parameters the query is that of the selector.
parse_resolve_query-eq :
    (u : Unicode) (params : Params) (qs : List Pair)
    → parse_pairs u (params (codes "selector")) ≡ Selector.ok qs
    → params (codes "port") ≡ []
    → params (codes "transport") ≡ []
    → params (codes "service") ≡ []
    → parse_resolve_query u params
      ≡ from_result (Selector.new u (params (codes "name")) (params (codes "type")) qs)
unfolding parse_resolve_query
parse_resolve_query-eq u params qs h p t s =
    rw (h, add_params-none params qs p t s, parse_resolve_query) refl

new-same :
    (u : Unicode) (q : Query) (qs : List Pair)
    → name_ok q.name ≡ true
    → type_ok q.rtype ≡ true
    → canonical_selector u qs ≡ Selector.ok q.selector
    → Selector.new u q.name q.rtype qs ≡ Selector.ok q
unfolding Selector.new
new-same u q qs good typed same = rw (good, typed, same, Selector.new) refl

-- What a client's normalised query is parsed to is that query: normalising it again changes nothing.
pub parse_resolve_query-sent :
    (u : Unicode)
    → UnicodeLaws u
    → (name rtype : Bytes) (ps : List Pair) (q : Query)
    → Selector.new u name rtype ps ≡ Selector.ok q
    → parse_resolve_query u (sent q) ≡ parsed q
unfolding Bytes-discrete
parse_resolve_query-sent u laws name rtype ps q h =
    let (good, typed, canon) = new-parts u name rtype ps q h in
    let (qs, read, same) = parse_pairs-canonical_selector u laws ps q.selector canon in
    parse_resolve_query-eq u (sent q) qs read refl refl refl
    ∙ ap from_result (new-same u q qs good typed same)

module _ (c : Secp) (o : SliceSort) (g : Gnark) (sg : Signing) (d : Decoding)
    (address_hex : Bytes → Bytes) where
  -- go-ethereum's texts: hexutil.Encode writes "0x" at least, hexutil.Decode reads what it writes,
  -- and HexToAddress reads what Address.Hex writes.
  pub record Texts : Type 0 where
    pub decode-hex_encode : (m : Bytes) → d.decode (sg.hex_encode m) ≡ some m
    pub hex_encode-ne-nil : (m : Bytes) → sg.hex_encode m ≢ []
    pub hex_to_address-address_hex :
        (a : Bytes) → length a ≡ 20 → d.hex_to_address (address_hex a) ≡ a

  -- A result that the chain can give: its owner is an address and its commitment a word, and the owner
  -- signature verifies.
  pub record IsGenuine (name : Bytes) (res : QueryResult) : Type 0 where
    pub is_found : found res ≡ true
    pub is_there : res.result.entry.is_there ≡ true
    pub owner_length : length res.result.owner ≡ 20
    pub commitment_length : length res.result.entry.commitment ≡ 32
    pub is_signed :
        verify_owner_sig c o name res.result.entry res.result.owner res.result.pub_key ≡ none

  module _ (texts : Texts) where
    pub record_from_response-match :
        (q : Query) (res : QueryResult)
        → length res.result.entry.commitment ≡ 32
        → record_from_response d (
            response_of
              (match sg address_hex q res)
              (to_record_json sg address_hex res.result.entry))
          ≡ some (
              rebuilt
                (to_record_json sg address_hex res.result.entry)
                res.result.entry.owner_sig
                res.result.entry.commitment)
    unfolding record_from_response to_record_json
    record_from_response-match q res h = ground (
      arith,
      texts.decode-hex_encode res.result.entry.owner_sig,
      texts.decode-hex_encode res.result.entry.commitment,
      texts.hex_encode-ne-nil res.result.entry.commitment,
    )

    -- the rebuilt record has the message and the signature of the one on chain
    pub verify_owner_sig-rebuilt :
        (name : Bytes) (r : Record) (owner pub_key : Bytes)
        → verify_owner_sig c o name
            (rebuilt (to_record_json sg address_hex r) r.owner_sig r.commitment)
            owner
            pub_key
          ≡ verify_owner_sig c o name r owner pub_key
    unfolding verify_owner_sig write_message to_record_json
    verify_owner_sig-rebuilt name r owner pub_key = refl

    pub record_message-rebuilt :
        (name : Bytes) (r : Record)
        → record_message o name (rebuilt (to_record_json sg address_hex r) r.owner_sig r.commitment)
          ≡ record_message o name r
    unfolding record_message write_message to_record_json
    record_message-rebuilt name r = refl

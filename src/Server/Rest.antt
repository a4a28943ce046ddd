-- ===== src/Server/Rest.antt =====
-- resolver/internal/server/rest.go: the REST front end. JSON texts and the address texts of
-- go-ethereum come from parameters.
use decentralized_dns.Base.{
  ℕ, Bytes, Bytes-discrete, List, [], ◌∷◌, ◌++◌, map, Bool, true, false, not, ltb, Option, none,
  some, ite, if◌then◌else◌, codes, replicate, ◌⊎◌, inl, inr,
}
use decentralized_dns.Base.Text.{Unicode}
use decentralized_dns.Chain.Types.{Record, Domain}
use decentralized_dns.Query.Grammar.{name_ok}
use decentralized_dns.Query.Selector
use decentralized_dns.Query.Selector.{Query, Pair, has_key, parse_pairs}
use decentralized_dns.Pki.Resource.{Signing, Envelope, seal_envelope}
use decentralized_dns.Lookup.Compare.{RecordJson}
use decentralized_dns.Server.Handle.{QueryResult, found}

-- url.Values.Get: "" for what is missing
abbrev pub Params : Type 0
Params = Bytes → Bytes

-- a query, or an error of the query package or of dupSelectorError
pub data ParsedQuery : Type 0 where
  parsed : Query → ParsedQuery
  bad_query : Selector.Error → ParsedQuery
  dup_selector : Bytes → ParsedQuery

abbrev pub from_result : Selector.Result Query → ParsedQuery
from_result (Selector.ok q) = parsed q
from_result (Selector.err e) = bad_query e

-- The loop over the explicit parameters: the pairs with those that are given, or the key of one that
-- the selector has too.
unfoldable pub add_params : Params → List Bytes → List Pair → List Pair ⊎ Bytes
unfolding has_key
add_params params [] pairs = inl pairs
add_params params (k ∷ ks) pairs =
    let skip = add_params params ks pairs in
    let add = add_params params ks (pairs ++ ((k, params k) ∷ [])) in
    ite (Bytes-discrete (params k) []) skip (if has_key k pairs then inr k else add)

abbrev pub explicit_params : List Bytes
explicit_params = codes "port" ∷ codes "transport" ∷ codes "service" ∷ []

unfoldable pub parse_resolve_query : Unicode → Params → ParsedQuery
parse_resolve_query u params = elim (parse_pairs u (params (codes "selector"))) [
  | Selector.err e ↦ bad_query e
  | Selector.ok pairs ↦ elim (add_params params explicit_params pairs) [
    | inr k ↦ dup_selector k
    | inl all ↦ from_result (Selector.new u (params (codes "name")) (params (codes "type")) all)
  ]
]

pub record ResolveResponse : Type 0 where
  pub query : Query
  pub found : Bool
  pub error : Bytes
  pub answer : Option RecordJson
  pub owner : Bytes
  pub pub_key : Bytes
  pub owner_sig_verified : Bool
  pub zk_proof : Bytes
  pub cached : Bool

pub record DomainResponse : Type 0 where
  pub name : Bytes
  pub owner : Bytes
  pub pub_key : Bytes
  pub expiry : ℕ
  pub generation : ℕ
  pub active : Bool
  pub records : List RecordJson

pub data ErrorCode : Type 0 where
  invalid_query chain_error sign_error rate_limited not_registered : ErrorCode

-- what a handler writes: a sealed envelope, or an error with its status
pub data Reply : Type 0 where
  sealed : Envelope → Reply
  error : ℕ → ErrorCode → Reply

module _ (g : Signing) (address_hex : Bytes → Bytes) where
  unfoldable pub to_record_json : Record → RecordJson
  to_record_json r = record {
    rtype = r.rtype;
    selector = r.selector;
    field_names = r.field_names;
    field_values = r.field_vals;
    ttl = r.ttl;
    generation = r.generation;
    owner_sig = g.hex_encode r.owner_sig;
    commitment = g.hex_encode r.commitment;
  }

  abbrev pub no_match : Query → QueryResult → ResolveResponse
  no_match q res = record {
    query = q;
    found = false;
    error = codes "no_match";
    answer = none;
    owner = [];
    pub_key = [];
    owner_sig_verified = false;
    zk_proof = [];
    cached = res.cached;
  }

  abbrev pub match : Query → QueryResult → ResolveResponse
  match q res = record {
    query = q;
    found = true;
    error = [];
    answer = some (to_record_json res.result.entry);
    owner = address_hex res.result.owner;
    pub_key = g.hex_encode res.result.pub_key;
    owner_sig_verified = res.result.owner_sig_valid;
    zk_proof = ite (Bytes-discrete res.result.zk_proof []) [] (g.hex_encode res.result.zk_proof);
    cached = res.cached;
  }

  -- resolveResponse on what HandleQuery returns; `none` is its error.
  unfoldable pub resolve_response : Query → Option QueryResult → Option ResolveResponse
  unfolding to_record_json found
  resolve_response q none = none
  resolve_response q (some res) = some (if found res then match q res else no_match q res)

  module _ (key : g.PrivateKey) where
    -- writeSigned of a marshalled value; `none` is an error of json.Marshal.
    unfoldable pub write_signed : Option Bytes → Reply
    write_signed contents = elim (seal_envelope g key contents) [
      | none ↦ error 500 sign_error
      | some env ↦ sealed env
    ]

    -- handleResolve, with json.Marshal and the resolution path
    unfoldable pub handle_resolve :
        Unicode → (ResolveResponse → Option Bytes) → (Query → Option QueryResult) → Params → Reply
    handle_resolve u marshal answer params = elim (parse_resolve_query u params) [
      | bad_query e ↦ error 400 invalid_query
      | dup_selector k ↦ error 400 invalid_query
      | parsed q ↦ elim (resolve_response q (answer q)) [
        | none ↦ error 502 chain_error
        | some resp ↦ write_signed (marshal resp)
      ]
    ]

    abbrev pub domain_response : Bytes → Domain → Bool → List Record → DomainResponse
    domain_response name dom active records = record {
      name = name;
      owner = address_hex dom.owner;
      pub_key = g.hex_encode dom.pub_key;
      expiry = dom.expiry;
      generation = dom.generation;
      active = active;
      records = map to_record_json records;
    }

    -- handleDomain at a Unix time, with what GetDomain and ListRecords return
    unfoldable pub handle_domain :
        (DomainResponse → Option Bytes) → ℕ → Option Domain → Option (List Record) → Bytes → Reply
    unfolding to_record_json write_signed
    handle_domain marshal now domain records name =
        if not (name_ok name) then error 400 invalid_query else elim domain [
          | none ↦ error 502 chain_error
          | some dom ↦
              if ite (Bytes-discrete dom.owner (replicate 20 0)) true false
              then error 404 not_registered
              else if ltb now dom.expiry
              then (elim records [
                | none ↦ error 502 chain_error
                | some rs ↦ write_signed (marshal (domain_response name dom true rs))
              ])
              else write_signed (marshal (domain_response name dom false []))
        ]

    -- handleTypes, with what ListTypes returns
    unfoldable pub handle_types : (List Bytes → Option Bytes) → Option (List Bytes) → Reply
    unfolding write_signed
    handle_types marshal none = error 502 chain_error
    handle_types marshal (some types) = write_signed (marshal types)

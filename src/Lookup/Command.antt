-- ===== src/Lookup/Command.antt =====
-- resolver/cmd/ddns-lookup/main.go: main around the checks of an answer: the flags, the discovery of a
-- resolver, the query, and the request.
use decentralized_dns.Base.{
  ℕ, Bytes, Bytes-discrete, List, [], ◌∷◌, Bool, true, false, Option, none, some, ite,
  if◌then◌else◌, codes,
}
use decentralized_dns.Base.Text.{Unicode}
use decentralized_dns.Chain.Types.{ResolveResult}
use decentralized_dns.Cli.Addresses.{
  Tools, zero_address, env_or, directory_addr, resolver_registry_addr,
}
use decentralized_dns.Cli.Args.{FlagSet, parsed, exited, parse, reorder, flag_value}
use decentralized_dns.Cli.Owner.{Flags, text, duration, bool, type_of, is_bool, takes, true_texts}
use decentralized_dns.Config.Env.{Environment}
use decentralized_dns.Query.Selector
use decentralized_dns.Query.Selector.{Query, Pair, parse_pairs, one_of}
use decentralized_dns.Pki.Owner.{Secp, SliceSort}
use decentralized_dns.Pki.Resource.{Signing, Envelope}
use decentralized_dns.Zk.Pack.{Gnark}
use decentralized_dns.Lookup.Client.{Verdict, Mode, direct, discovered, lookup}
use decentralized_dns.Lookup.Compare.{Decoding}
use decentralized_dns.Lookup.Honest.{sent}
use decentralized_dns.Server.Rest.{Params, ResolveResponse}

-- What the client reads from outside, by RPC URL, contract, or resolver: ActiveResolvers of the
-- directory as endpoints and keys, Dial and Resolve of the chain client, and the answer to the GET
-- request; the inner `none` is an answer that is no envelope. The outer `none` is an error.
pub record Outside : Type 0 where
  pub active_resolvers : Bytes → Bytes → Option (List (Bytes × Bytes))
  pub resolve : Bytes → Bytes → Query → Option ResolveResult
  pub request : Bytes → Params → Option (Option Envelope)

-- how main ends: with an exit code before there is an answer, or with the verdict on an answer
pub data Run : Type 0 where
  stopped : ℕ → Run
  judged : Query → Mode → Option Envelope → Verdict → Run

abbrev lookup_flags : Flags
lookup_flags =
    (codes "resolver", text)
    ∷ (codes "selector", text)
    ∷ (codes "timeout", duration)
    ∷ (codes "discover", bool)
    ∷ (codes "rpc", text)
    ∷ (codes "deployments", text)
    ∷ (codes "resolver-registry", text)
    ∷ (codes "namespace", text)
    ∷ []

module _ (c : Secp) (o : SliceSort) (g : Gnark) (sg : Signing) (d : Decoding) (t : Tools c)
    (env : Environment) (u : Unicode) (equal_fold : Bytes → Bytes → Bool)
    (unmarshal : Bytes → Option ResolveResponse) (out : Outside) where
  abbrev flags : FlagSet
  flags = record {
    formal = λ n. elim (type_of lookup_flags n) [ none ↦ none | some ty ↦ some (is_bool ty) ];
    accepts = λ n v. elim (type_of lookup_flags n) [ none ↦ false | some ty ↦ takes c t ty v ];
  }

  -- discoverResolver: the endpoint and the key of the first active resolver; `none` is fatal.
  unfoldable pub discover_resolver : Bytes → Bytes → Bytes → Option (Bytes × Bytes)
  discover_resolver rpc deployments registry =
      let rr = resolver_registry_addr c t env deployments registry in
      ite (Bytes-discrete rr zero_address) none (elim (out.active_resolvers rpc rr) [
        | none ↦ none
        | some rs ↦ elim rs [ [] ↦ none | r ∷ more ↦ some (r.0, sg.hex_encode r.1) ]
      ])

  -- namespaceAddr
  unfoldable pub namespace_addr : Bytes → Bytes → Bytes
  namespace_addr = directory_addr c t env (codes "NamespaceDApp") (codes "CONTRACT_ADDRESS")

  -- what compareOnChain reads; `none` is an error.
  unfoldable pub read_chain : Bytes → Bytes → Query → Option ResolveResult
  read_chain rpc ns q = ite (Bytes-discrete ns zero_address) none (out.resolve rpc ns q)

  -- the request for a query to an endpoint, and the judgement of the answer
  unfoldable pub ask : Bytes → (Query → Mode) → Query → Run
  ask endpoint mode_of q = elim (out.request endpoint (sent q)) [
    | none ↦ stopped 1
    | some answer ↦
        judged q (mode_of q) answer (lookup c o g sg d equal_fold unmarshal (mode_of q) q answer)
  ]

  -- the query that the name, the type and the selector make
  unfoldable pub ask_for : Bytes → (Query → Mode) → Bytes → List Bytes → Run
  ask_for endpoint mode_of selector [] = stopped 2
  ask_for endpoint mode_of selector (name ∷ []) = stopped 2
  ask_for endpoint mode_of selector (name ∷ rtype ∷ x ∷ rest) = stopped 2
  ask_for endpoint mode_of selector (name ∷ rtype ∷ []) = elim (parse_pairs u selector) [
    | Selector.err e ↦ stopped 1
    | Selector.ok pairs ↦ elim (Selector.new u name rtype pairs) [
      | Selector.err e ↦ stopped 1
      | Selector.ok q ↦ ask endpoint mode_of q
    ]
  ]

  unfoldable pub run_flags : List (Bytes × Bytes) → List Bytes → Run
  run_flags assigned rest =
      let rpc =
        flag_value (codes "rpc") (env_or env (codes "RPC_URL") (codes "http://127.0.0.1:8545"))
          assigned in
      let deployments =
        flag_value (codes "deployments")
          (env_or env (codes "DDNS_DEPLOYMENTS") (codes "contracts/deployments/localhost.json"))
          assigned in
      let ns = namespace_addr deployments (flag_value (codes "namespace") [] assigned) in
      let selector = flag_value (codes "selector") [] assigned in
      if one_of true_texts (flag_value (codes "discover") (codes "false") assigned)
      then (elim (discover_resolver rpc deployments
          (flag_value (codes "resolver-registry") [] assigned)) [
            | none ↦ stopped 1
            | some r ↦ ask_for r.0 (λ q. discovered r.1 (read_chain rpc ns q)) selector rest
          ])
      else ask_for
          (flag_value (codes "resolver")
            (env_or env (codes "DDNS_RESOLVER") (codes "http://127.0.0.1:8080")) assigned)
          (λ q. direct) selector rest

  unfoldable pub main : List Bytes → Run
  main args =
      elim (parse flags
        (reorder (λ n. ite (Bytes-discrete n (codes "discover")) true false) args)) [
          | exited code ↦ stopped code
          | parsed assigned rest ↦ run_flags assigned rest
        ]

-- ===== src/Server/Handle.antt =====
-- resolver/internal/server/handle.go: the resolution path that all front ends share.
use decentralized_dns.Base.{
  ℕ, ◌*◌, Bytes, Bytes-discrete, List, [], ◌∷◌, Bool, true, false, not, ◌&&◌, Option, none, some,
  ltb, ◌==◌, if◌then◌else◌, ite, length, replicate,
}
use decentralized_dns.Cache.Lru.{Key, Lru}
use decentralized_dns.Cache.State
use decentralized_dns.Cache.State.{Entry, TtlCache, RecordEvent, handle_event}
use decentralized_dns.Chain.Types.{Record, ResolveResult}
use decentralized_dns.Query.Selector.{Query}
use decentralized_dns.Pki.Owner.{Secp, SliceSort, record_message, verify_owner_sig}
use decentralized_dns.Zk.Pack.{Gnark, commitment, prove}

-- what the chain answers to resolve(name, type, selector): the record, its owner and the public key
abbrev pub Answer : Type 0
Answer = Record × Bytes × Bytes

-- chain.Client.Resolve on a successful answer
abbrev pub to_result : Answer → ResolveResult
to_result (r, owner, pub_key) = record {
  entry = r;
  owner = owner;
  pub_key = pub_key;
  owner_sig_valid = false;
  zk_proof = [];
}

-- QueryResult
pub record QueryResult : Type 0 where
  pub result : ResolveResult
  pub cached : Bool

unfoldable pub found : QueryResult → Bool
found r =
    r.result.entry.is_there && not (ite (Bytes-discrete r.result.owner (replicate 20 0)) true false)

-- the key of a query
abbrev pub key_of : Query → Key
key_of q = record { name = q.name; rtype = q.rtype; selector = q.selector }

module _ (c : Secp) (o : SliceSort) (g : Gnark) where
  -- The proof of a message whose commitment is on chain. SolidityCalldata refuses only a proof of
  -- another type than the one that the BN254 prover returns, so that its encoding is a function here.
  unfoldable pub prove_message : Bytes → Bytes → Bytes
  unfolding commitment prove
  prove_message on_chain msg = elim (commitment g msg) [
    | none ↦ []
    | some hash ↦
        ite (Bytes-discrete hash on_chain)
          (elim (prove g msg) [ none ↦ [] | some proof ↦ g.marshal_solidity proof ]) []
  ]

  -- proveRecord; [] is a nil slice.
  unfoldable pub prove_record : Bytes → Record → Bytes
  unfolding prove_message record_message
  prove_record name rec = ite (Bytes-discrete rec.commitment (replicate 32 0)) [] (
      if not (length rec.field_names == length rec.field_vals)
      then []
      else elim (record_message o name rec) [
        | none ↦ []
        | some msg ↦ prove_message rec.commitment msg
      ])

  -- what is stored of a record that exists
  unfoldable pub checked : Bytes → ResolveResult → ResolveResult
  unfolding prove_record verify_owner_sig
  checked name res = record {
    entry = res.entry;
    owner = res.owner;
    pub_key = res.pub_key;
    owner_sig_valid = elim (verify_owner_sig c o name res.entry res.owner res.pub_key) [
      | none ↦ true
      | some e ↦ res.owner_sig_valid
    ];
    zk_proof = prove_record name res.entry;
  }

  -- time.Duration(TTL) * time.Second in nanoseconds: below 2^63, as TTL is below 2^32
  abbrev pub ttl_of : ResolveResult → ℕ
  ttl_of res = res.entry.ttl * 1000000000

  module _ (name_hash : Bytes → Bytes) (L : Lru (Entry ResolveResult)) where
    -- HandleQuery after a miss, on the chain's answer at a time
    unfoldable pub fill :
        TtlCache name_hash L → ℕ → Query → Option Answer → TtlCache name_hash L × Option QueryResult
    unfolding checked
    fill s now q none = (s, none)
    fill s now q (some answer) =
        let res = to_result answer in
        if res.entry.is_there
        then (
          if ltb 0 res.entry.ttl
              then State.set name_hash L s now (key_of q) (checked q.name res) (ttl_of res)
              else s,
          some (record { result = checked q.name res; cached = false }),
        )
        else (s, some (record { result = res; cached = false }))

    -- HandleQuery: the cache is read at one time and written, on a miss, at another. `chain` is what
    -- the chain answers, if it is asked; `none` is an error.
    unfoldable pub handle_query :
        TtlCache name_hash L
        → ℕ
        → ℕ
        → Query
        → Option Answer
        → TtlCache name_hash L × Option QueryResult
    unfolding fill
    handle_query s at now q chain =
        let (s1, hit) = State.get name_hash L s at (key_of q) in
        elim hit [
          | some res ↦ (s1, some (record { result = res; cached = true }))
          | none ↦ fill s1 now q chain
        ]

    -- what happens to the server's cache: queries, and contract events
    pub data Step : Type 0 where
      query : ℕ → ℕ → Query → Option Answer → Step
      event : RecordEvent → Step

    unfoldable pub step : TtlCache name_hash L → Step → TtlCache name_hash L
    unfolding handle_query
    step s (query at now q chain) = (handle_query s at now q chain).0
    step s (event ev) = handle_event name_hash L s ev

    unfoldable pub run : TtlCache name_hash L → List Step → TtlCache name_hash L
    unfolding step
    run s [] = s
    run s (x ∷ xs) = run (step s x) xs

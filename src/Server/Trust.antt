-- ===== src/Server/Trust.antt =====
-- Sequences of queries and contract events through `HandleQuery` of
-- resolver/internal/server/handle.go.
use decentralized_dns.Base.{
  ℕ, Bytes, Bytes-discrete, List, [], ◌∷◌, true, ◌&&◌, Option, none, some, ltb, ◌≡◌, ◌≢◌, refl, sym,
  ap, ◌∙◌, subst, Option-cases, Bool-cases, inl, inr, arith,
}
use decentralized_dns.Cache.Lru.{Key, Lru}
use decentralized_dns.Cache.State
use decentralized_dns.Cache.State.{Entry, TtlCache, RecordEvent, handle_event}
use decentralized_dns.Cache.Contents.{handle_event-Within, get-Within, get_stored, set_stored}
use decentralized_dns.Chain.Types.{Record, ResolveResult}
use decentralized_dns.Query.Selector.{Query}
use decentralized_dns.Pki.Owner.{Secp, SliceSort, record_message, verify_owner_sig}
use decentralized_dns.Zk.Pack.{Gnark, commitment}
use decentralized_dns.Server.Handle.{
  Answer, to_result, QueryResult, key_of, prove_message, prove_record, checked, ttl_of, fill,
  handle_query, Step, query, event, step, run,
}

module _ (c : Secp) (o : SliceSort) (g : Gnark) where
  -- An owner verdict and a proof, for a name, that are what they claim to be.
  pub record IsTrusted (name : Bytes) (res : ResolveResult) : Type 0 where
    -- the verdict: the owner signature verifies
    pub owner_verdict :
        res.owner_sig_valid ≡ true
        → verify_owner_sig c o name res.entry res.owner res.pub_key ≡ none
    -- a proof is only attached when the commitment on chain is that of the record
    pub proof_verdict :
        res.zk_proof ≢ []
        → (m : Bytes) × (record_message o name res.entry ≡ some m)
          × (commitment g m ≡ some res.entry.commitment)

  to_result-IsTrusted : (name : Bytes) (a : Answer) → IsTrusted name (to_result a)
  to_result-IsTrusted name a = record {
    owner_verdict = λ h. cc;
    proof_verdict = λ h. absurd (h refl);
  }

  prove_message-commitment :
      (on_chain msg : Bytes)
      → prove_message c o g on_chain msg ≢ []
      → commitment g msg ≡ some on_chain
  unfolding prove_message
  prove_message-commitment on_chain msg h = elim (Option-cases (commitment g msg)) [
    | inl e ↦ absurd (h (rw (e, prove_message) refl))
    | inr (hash, e) ↦ elim (Bytes-discrete hash on_chain) [
      | yes same ↦ e ∙ ap some same
      | no ne ↦ absurd (h (ground (arith, e)))
    ]
  ]

  prove_record-commitment :
      (name : Bytes) (rec : Record)
      → prove_record c o g name rec ≢ []
      → (m : Bytes) × (record_message o name rec ≡ some m) × (commitment g m ≡ some rec.commitment)
  unfolding prove_record
  prove_record-commitment name rec h = elim (Option-cases (record_message o name rec)) [
    | inl e ↦ absurd (h (ground (arith, e)))
    | inr (m, e) ↦ (m, e, prove_message-commitment rec.commitment m (λ q. h (ground (arith, e, q))))
  ]

  checked-IsTrusted :
      (name : Bytes) (a : Answer) → IsTrusted name (checked c o g name (to_result a))
  unfolding checked
  checked-IsTrusted name a = record {
    owner_verdict = λ h. ground arith;
    proof_verdict = λ h. prove_record-commitment name a.0 h;
  }

  module _ (name_hash : Bytes → Bytes) (L : Lru (Entry ResolveResult)) where
    -- every stored entry is trusted for the name that it is stored under
    abbrev pub AllTrusted : TtlCache name_hash L → Type 0
    AllTrusted s =
        (k : Key) (e : Entry ResolveResult) → L.peek s.lru k ≡ some e → IsTrusted k.name e.value

    -- an answer, if there is one, is trusted
    abbrev pub Trusts : Bytes → Option QueryResult → Type 0
    Trusts name r = (res : QueryResult) → r ≡ some res → IsTrusted name res.result

    fill-AllTrusted :
        (s : TtlCache name_hash L) (now : ℕ) (q : Query) (chain : Option Answer)
        → AllTrusted s
        → AllTrusted (fill c o g name_hash L s now q chain).0
    unfolding fill
    fill-AllTrusted s now q none t k e h = t k e h
    fill-AllTrusted s now q (some a) t k e h =
        let value = checked c o g q.name (to_result a) in
        let ttl = ttl_of c o g (to_result a) in
        elim (Bool-cases (a.0.is_there && ltb 0 a.0.ttl)) [
          | inr skipped ↦ t k e (ground arith)
          | inl written ↦
              let h' : L.peek (State.set name_hash L s now (key_of q) value ttl).lru k ≡ some e =
                ground arith in
              elim (set_stored name_hash L s now (key_of q) value ttl k e h') [
                | inl (same, v) ↦
                    subst (λ (x : ResolveResult). IsTrusted k.name x) (sym v)
                      (subst (λ (x : Key). IsTrusted x.name value) (sym same)
                        (checked-IsTrusted q.name a))
                | inr old ↦ t k e old
              ]
        ]

    fill-Trusts :
        (s : TtlCache name_hash L) (now : ℕ) (q : Query) (chain : Option Answer)
        → Trusts q.name (fill c o g name_hash L s now q chain).1
    unfolding fill
    fill-Trusts s now q none res h = cc
    fill-Trusts s now q (some a) res h = elim (Bool-cases a.0.is_there) [
      | inl there ↦
          let same : checked c o g q.name (to_result a) ≡ res.result = ground arith in
          subst (λ (x : ResolveResult). IsTrusted q.name x) same (checked-IsTrusted q.name a)
      | inr missing ↦
          let same : to_result a ≡ res.result = ground arith in
          subst (λ (x : ResolveResult). IsTrusted q.name x) same (to_result-IsTrusted q.name a)
    ]

    handle_query-AllTrusted :
        (s : TtlCache name_hash L) (at now : ℕ) (q : Query) (chain : Option Answer)
        → AllTrusted s
        → AllTrusted (handle_query c o g name_hash L s at now q chain).0
    unfolding handle_query
    handle_query-AllTrusted s at now q chain t =
        let s1 = (State.get name_hash L s at (key_of q)).0 in
        let t1 : AllTrusted s1 = λ k e h. t k e (get-Within name_hash L s at (key_of q) k e h) in
        elim (Option-cases (State.get name_hash L s at (key_of q)).1) [
          | inl miss ↦ rw (miss, handle_query) (fill-AllTrusted s1 now q chain t1)
          | inr (v, hit) ↦ rw (hit, handle_query) t1
        ]

    handle_query-Trusts :
        (s : TtlCache name_hash L) (at now : ℕ) (q : Query) (chain : Option Answer)
        → AllTrusted s
        → Trusts q.name (handle_query c o g name_hash L s at now q chain).1
    unfolding handle_query
    handle_query-Trusts s at now q chain t =
        let s1 = (State.get name_hash L s at (key_of q)).0 in
        elim (Option-cases (State.get name_hash L s at (key_of q)).1) [
          | inl miss ↦ rw (miss, handle_query) (fill-Trusts s1 now q chain)
          | inr (v, hit) ↦
              rw (hit, handle_query)
                (λ res h.
                  let (expiry, stored) = get_stored name_hash L s at (key_of q) v hit in
                  let same : v ≡ res.result = cc in
                  subst (λ (x : ResolveResult). IsTrusted q.name x) same
                    (t (key_of q) (record { value = v; expires_at = expiry }) stored))
        ]

    step-AllTrusted :
        (s : TtlCache name_hash L) (x : Step c o g name_hash L)
        → AllTrusted s
        → AllTrusted (step c o g name_hash L s x)
    unfolding step
    step-AllTrusted s (query at now q chain) t = handle_query-AllTrusted s at now q chain t
    step-AllTrusted s (event ev) t = λ k e h. t k e (handle_event-Within name_hash L s ev k e h)

    run-AllTrusted :
        (s : TtlCache name_hash L) (xs : List (Step c o g name_hash L))
        → AllTrusted s
        → AllTrusted (run c o g name_hash L s xs)
    unfolding run
    run-AllTrusted s [] t = t
    run-AllTrusted s (x ∷ xs) t =
        run-AllTrusted (step c o g name_hash L s x) xs (step-AllTrusted s x t)

    -- Whatever queries and contract events came before, on a cache that was empty, and whatever the
    -- chain answered: an answer of `HandleQuery` that claims a valid owner signature, cached or not,
    -- has one that `VerifyOwnerSig` accepts for the queried name, and an answer with a proof has the
    -- commitment of its record on chain.
    pub handle_query-IsTrusted :
        (s : TtlCache name_hash L) (xs : List (Step c o g name_hash L)) (at now : ℕ) (q : Query)
        (chain : Option Answer) (res : QueryResult)
        → ((k : Key) → L.peek s.lru k ≡ none)
        → (handle_query c o g name_hash L (run c o g name_hash L s xs) at now q chain).1 ≡ some res
        → IsTrusted q.name res.result
    handle_query-IsTrusted s xs at now q chain res empty h =
        handle_query-Trusts (run c o g name_hash L s xs) at now q chain
          (run-AllTrusted s xs (λ k e stored. absurd (ground (arith, empty k)))) res h

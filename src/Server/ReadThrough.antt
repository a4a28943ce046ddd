-- ===== src/Server/ReadThrough.antt =====
-- `HandleQuery` (resolver/internal/server/handle.go) as a read-through cache.
use decentralized_dns.Base.{
  ℕ, ◌+◌, ◌*◌, ◌≤◌, ◌<◌, Bytes, Bool, true, false, Option, none, some, ltb, ◌≡◌, refl, ap, ◌∙◌,
  if◌then◌else◌, Option-cases, inl, inr, arith,
}
use decentralized_dns.Cache.Lru.{Lru}
use decentralized_dns.Cache.State
use decentralized_dns.Cache.State.{Entry, TtlCache}
use decentralized_dns.Cache.Effects.{get-set_self}
use decentralized_dns.Chain.Types.{ResolveResult}
use decentralized_dns.Query.Selector.{Query}
use decentralized_dns.Pki.Owner.{Secp, SliceSort}
use decentralized_dns.Zk.Pack.{Gnark}
use decentralized_dns.Server.Handle.{
  Answer, to_result, QueryResult, key_of, checked, ttl_of, fill, handle_query,
}

module _ (c : Secp) (o : SliceSort) (g : Gnark) (name_hash : Bytes → Bytes)
    (L : Lru (Entry ResolveResult)) where
  fill_stored :
      (s : TtlCache name_hash L) (now : ℕ) (q : Query) (a : Answer)
      → a.0.is_there ≡ true
      → 0 < a.0.ttl
      → (fill c o g name_hash L s now q (some a)).0
        ≡ State.set name_hash L s now
            (key_of q)
            (checked c o g q.name (to_result a))
            (ttl_of c o g (to_result a))
  unfolding fill
  fill_stored s now q a there positive =
      let p : ltb 0 a.0.ttl ≡ true = ground arith in rw (there, p) refl

  handle_query_hit :
      (s : TtlCache name_hash L) (at now : ℕ) (q : Query) (chain : Option Answer)
      (res : ResolveResult)
      → (State.get name_hash L s at (key_of q)).1 ≡ some res
      → (handle_query c o g name_hash L s at now q chain).1
        ≡ some (record { result = res; cached = true })
  unfolding handle_query
  handle_query_hit s at now q chain res h = rw (h, handle_query) refl

  pub handle_query_miss :
      (s : TtlCache name_hash L) (at now : ℕ) (q : Query) (chain : Option Answer)
      → (State.get name_hash L s at (key_of q)).1 ≡ none
      → handle_query c o g name_hash L s at now q chain
        ≡ fill c o g name_hash L (State.get name_hash L s at (key_of q)).0 now q chain
  unfolding handle_query
  handle_query_miss s at now q chain h = rw (h, handle_query) refl

  -- After a miss that the chain answered with a record of positive TTL, the same query is answered
  -- from the cache, with the same result and without the chain, until the TTL has passed.
  pub handle_query-handle_query :
      (s : TtlCache name_hash L) (at now : ℕ) (q : Query) (a : Answer) (at2 now2 : ℕ)
      (chain : Option Answer)
      → (State.get name_hash L s at (key_of q)).1 ≡ none
      → a.0.is_there ≡ true
      → 0 < a.0.ttl
      → at2 ≤ now + a.0.ttl * 1000000000
      → (handle_query c o g name_hash L
          (handle_query c o g name_hash L s at now q (some a)).0
          at2
          now2
          q
          chain).1
        ≡ some (record { result = checked c o g q.name (to_result a); cached = true })
  handle_query-handle_query s at now q a at2 now2 chain miss there positive early =
      let s1 = (State.get name_hash L s at (key_of q)).0 in
      let value = checked c o g q.name (to_result a) in
      let filled =
        ap (λ (r : TtlCache name_hash L × Option QueryResult). r.0)
          (handle_query_miss s at now q (some a) miss)
        ∙ fill_stored s1 now q a there positive in
      let live : ltb (now + a.0.ttl * 1000000000) at2 ≡ false = ground arith in
      handle_query_hit _ at2 now2 q chain value (
        ap (λ (x : TtlCache name_hash L). (State.get name_hash L x at2 (key_of q)).1) filled
        ∙ get-set_self name_hash L s1 now at2 (key_of q) value (ttl_of c o g (to_result a))
        ∙ ap (λ (b : Bool). if b then none else some value) live)

  -- A query that the chain answers with an error, or with no record, stores nothing: what it leaves is
  -- the cache after its own lookup.
  pub handle_query-absent :
      (s : TtlCache name_hash L) (at now : ℕ) (q : Query) (a : Answer)
      → a.0.is_there ≡ false
      → ((handle_query c o g name_hash L s at now q none).0
          ≡ (State.get name_hash L s at (key_of q)).0)
        × ((handle_query c o g name_hash L s at now q (some a)).0
            ≡ (State.get name_hash L s at (key_of q)).0)
  unfolding handle_query fill
  handle_query-absent s at now q a missing =
      elim (Option-cases (State.get name_hash L s at (key_of q)).1) [
        | inl m ↦ (rw (m, handle_query) refl, rw (m, handle_query, fill, missing) refl)
        | inr (v, h) ↦ (rw (h, handle_query) refl, rw (h, handle_query) refl)
      ]

-- ===== src/Cache/Effects.antt =====
-- What a client of resolver/internal/cache/cache.go can read after each method.
use decentralized_dns.Base.{
  ℕ, ◌+◌, ◌≤◌, Bytes, Bytes-discrete, [], Option, none, some, ite, ltb, ◌≡◌, ◌≢◌, arith,
  if◌then◌else◌, Option-cases, inl, inr,
}
use decentralized_dns.Cache.Lru.{Key, Lru}
use decentralized_dns.Cache.State.{
  has, Entry, TtlCache, incr, on_evict, remove_key, get, set, invalidate_name, invalidate_name_hash,
}
use decentralized_dns.Cache.Steps.{IsValid, stored-remove_all}

-- The specification of a read: the value of an entry that has not expired.
abbrev pub fresh : {V : Type 0} → ℕ → Option (Entry V) → Option V
fresh now none = none
fresh now (some e) = if ltb e.expires_at now then none else some e.value

module _ (name_hash : Bytes → Bytes) {V : Type 0} (L : Lru (Entry V)) where
  -- `Get` answers with the stored value exactly when it has not expired, counts one hit or one
  -- miss accordingly, and changes no answer, for any key, now or later.
  pub get_lem :
      (c : TtlCache name_hash L) (now : ℕ) (k : Key)
      → ((get name_hash L c now k).1 ≡ fresh now (L.peek c.lru k))
        × ((get name_hash L c now k).0.hits
            ≡ (elim (fresh now (L.peek c.lru k)) [ none ↦ c.hits | some v ↦ incr c.hits ]))
        × ((get name_hash L c now k).0.misses
            ≡ (elim (fresh now (L.peek c.lru k)) [ none ↦ incr c.misses | some v ↦ c.misses ]))
        × ((later : ℕ) (j : Key)
            → now ≤ later
            → fresh later (L.peek (get name_hash L c now k).0.lru j) ≡ fresh later (L.peek c.lru j))
  unfolding get remove_key on_evict
  get_lem c now k = (
    ground (arith, L.get-peek c.lru k),
    ground (arith, L.get-peek c.lru k, L.peek-get c.lru k k),
    ground (arith, L.get-peek c.lru k, L.peek-get c.lru k k),
    λ later j h.
        ground
          (arith, L.get-peek c.lru k, L.peek-get c.lru k j, L.peek-remove (L.get c.lru k).1 k j),
  )

  pub stored-set_self :
      (c : TtlCache name_hash L) (at : ℕ) (k : Key) (value : V) (ttl : ℕ)
      → L.peek (set name_hash L c at k value ttl).lru k
        ≡ some (record { value = value; expires_at = at + ttl })
  unfolding set on_evict
  stored-set_self c at k value ttl =
      let e : Entry V = record { value = value; expires_at = at + ttl } in
      elim (Option-cases (L.add c.lru k e).1) [
        | inl q ↦ ground (arith, L.peek-add c.lru k k e q)
        | inr (w, q) ↦
            ground (arith, L.peek-add_evicted c.lru k k w e q, L.evicted_ne c.lru k w e q)
      ]

  -- A `Get` right after a `Set` of the same key answers with the value until the TTL has passed, and
  -- with a miss afterwards, whatever was evicted.
  pub get-set_self :
      (c : TtlCache name_hash L) (at now : ℕ) (k : Key) (value : V) (ttl : ℕ)
      → (get name_hash L (set name_hash L c at k value ttl) now k).1
        ≡ (if ltb (at + ttl) now then none else some value)
  get-set_self c at now k value ttl =
      let c' = set name_hash L c at k value ttl in
      ground (arith, (get_lem c' now k).0, stored-set_self c at k value ttl)

  -- `Set` keeps every other entry but the one that the LRU evicts.
  pub stored-set_ne :
      (c : TtlCache name_hash L) (now : ℕ) (k j : Key) (value : V) (ttl : ℕ)
      → j ≢ k
      → (L.add c.lru k (record { value = value; expires_at = now + ttl })).1 ≢ some j
      → L.peek (set name_hash L c now k value ttl).lru j ≡ L.peek c.lru j
  unfolding set on_evict
  stored-set_ne c now k j value ttl ne kept =
      let e : Entry V = record { value = value; expires_at = now + ttl } in
      elim (Option-cases (L.add c.lru k e).1) [
        | inl q ↦ ground (arith, L.peek-add c.lru k j e q)
        | inr (w, q) ↦ ground (arith, L.peek-add_evicted c.lru k j w e q)
      ]

module _ (name_hash : Bytes → Bytes) (IsUsed : Bytes → Type 0)
    (no_collision : (m n : Bytes) → IsUsed m → IsUsed n → name_hash m ≡ name_hash n → m ≡ n)
    {V : Type 0} (L : Lru (Entry V)) (c : TtlCache name_hash L)
    (v : IsValid name_hash IsUsed no_collision L c) where
  -- On a consistent cache `InvalidateName` drops every entry of the name and keeps all others.
  pub stored-invalidate_name :
      (n : Bytes) (j : Key)
      → L.peek (invalidate_name name_hash L c n).lru j
        ≡ ite (Bytes-discrete j.name n) none (L.peek c.lru j)
  unfolding invalidate_name has
  stored-invalidate_name n j = elim (Option-cases (c.index.name_keys n)) [
    | inl e ↦
        ground
          (arith, stored-remove_all name_hash IsUsed no_collision L [] c j, v.live j, v.named n j)
    | inr (ks, e) ↦
        ground
          (arith, stored-remove_all name_hash IsUsed no_collision L ks c j, v.live j, v.named n j)
  ]

  -- `InvalidateNameHash` does the same for the used name with that hash.
  pub stored-invalidate_name_hash :
      (n : Bytes) (j : Key)
      → IsUsed n
      → L.peek (invalidate_name_hash name_hash L c (name_hash n)).lru j
        ≡ ite (Bytes-discrete j.name n) none (L.peek c.lru j)
  unfolding invalidate_name_hash
  stored-invalidate_name_hash n j u = elim (Option-cases (c.index.hash_names (name_hash n))) [
    | inl e ↦ ground (arith, v.live j, v.hashed n)
    | inr (m, e) ↦ ground (
      arith,
      v.hash_sound (name_hash n) m,
      no_collision m n,
      v.used m,
      stored-invalidate_name m j,
    )
  ]

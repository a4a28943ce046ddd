-- ===== src/Cache/Steps.antt =====
-- The methods of TTLCache in resolver/internal/cache/cache.go against the invariant of the indexes,
-- and their effect on the stored entries.
use decentralized_dns.Base.{
  ℕ, suc, ◌+◌, Bytes, List, [], ◌∷◌, Option, none, some, ltb, ◌≡◌, refl, arith, if◌then◌else◌,
  Option-cases, inl, inr, Bool-cases,
}
use decentralized_dns.Cache.Lru.{Key, with_key, without_key, Lru}
use decentralized_dns.Cache.Index.{
  IsConsistent, register-IsConsistent, drop_from_index-IsConsistent,
}
use decentralized_dns.Cache.State.{
  has, Index, Entry, TtlCache, new, on_evict, on_evict_all, remove_key, get, set, remove_all,
  invalidate_name, invalidate_name_hash, flush,
}

-- Stores with the same entries have the same indexes.
IsConsistent-same :
    {E : Type 0} (name_hash : Bytes → Bytes) (IsUsed : Bytes → Type 0) (p p' : Key → Option E)
    (ix : Index)
    → ((j : Key) → p' j ≡ p j)
    → IsConsistent name_hash IsUsed p ix
    → IsConsistent name_hash IsUsed p' ix
IsConsistent-same name_hash IsUsed p p' ix h c = record {
  live = λ k l. c.live k (ground (arith, h k));
  named = λ n k m. ground (arith, h k, c.named n k);
  nonempty = c.nonempty;
  used = c.used;
  hashed = c.hashed;
  hash_sound = c.hash_sound;
}

module _ (name_hash : Bytes → Bytes) (IsUsed : Bytes → Type 0)
    (no_collision : (m n : Bytes) → IsUsed m → IsUsed n → name_hash m ≡ name_hash n → m ≡ n)
    {V : Type 0} (L : Lru (Entry V)) where
  abbrev pub Cache : Type 0
  Cache = TtlCache name_hash L

  -- the entries that the LRU holds, expired ones included
  abbrev pub stored : Cache → Key → Option (Entry V)
  stored c = L.peek c.lru

  abbrev pub IsValid : Cache → Type 0
  IsValid c = IsConsistent name_hash IsUsed (stored c) c.index

  empty-IsConsistent :
      (p : Key → Option (Entry V))
      → ((k : Key) → p k ≡ none)
      → IsConsistent name_hash IsUsed p (record { name_keys = λ n. none; hash_names = λ h. none })
  empty-IsConsistent p h = record {
    live = λ k l. absurd (l (h k));
    named = λ n k m. cc;
    nonempty = λ n e. cc;
    used = λ n m. absurd (m refl);
    hashed = λ n m. absurd (m refl);
    hash_sound = λ hh n e. cc;
  }

  -- For a positive capacity `New` gives a consistent cache with nothing in it.
  pub new-IsValid :
      (n : ℕ)
      → (c : Cache) × (new name_hash L (suc n) ≡ some c)
        × IsValid c
        × ((k : Key) → stored c k ≡ none)
  unfolding new
  new-IsValid n =
      let (s, e, empty) = L.new-suc n in
      (
        record {
          lru = s;
          index = record { name_keys = λ m. none; hash_names = λ h. none };
          capacity = suc n;
          hits = 0;
          misses = 0;
          evictions = 0;
        },
        rw (e, new),
        empty-IsConsistent (L.peek s) empty,
        empty,
      )

  pub stored-remove_key :
      (c : Cache) (k j : Key) → stored (remove_key name_hash L c k) j ≡ without_key k (stored c) j
  unfolding remove_key on_evict
  stored-remove_key c k j = ground (arith, L.peek-remove c.lru k j)

  pub remove_key-IsValid : (c : Cache) (k : Key) → IsValid c → IsValid (remove_key name_hash L c k)
  unfolding remove_key on_evict
  remove_key-IsValid c k v = elim (Option-cases (stored c k)) [
    | inl e ↦ rw (L.remove_absent c.lru k e) (
        IsConsistent-same name_hash IsUsed (stored c) _ c.index
          (λ j. ground (arith, L.peek-remove c.lru k j)) v)
    | inr (x, e) ↦ rw (L.remove_present c.lru k x e) (
        drop_from_index-IsConsistent name_hash IsUsed no_collision (stored c) _ c.index k v
          (λ j. L.peek-remove c.lru k j))
  ]

  pub get-IsValid :
      (c : Cache) (now : ℕ) (k : Key) → IsValid c → IsValid (get name_hash L c now k).0
  unfolding get
  get-IsValid c now k v =
      let touched : Cache = record c { lru = (L.get c.lru k).1 } in
      let tv : IsValid touched =
        IsConsistent-same name_hash IsUsed (stored c) (stored touched) c.index (L.peek-get c.lru k)
          v in
      elim (Option-cases (L.get c.lru k).0) [
        | inl e ↦ rw (e, get) tv
        | inr (x, e) ↦ elim (Bool-cases (ltb x.expires_at now)) [
          | inl late ↦ rw (e, get, late) (remove_key-IsValid touched k tv)
          | inr fresh ↦ rw (e, get, fresh) tv
        ]
      ]

  pub set-IsValid :
      (c : Cache) (now : ℕ) (k : Key) (value : V) (ttl : ℕ)
      → IsUsed k.name
      → IsValid c
      → IsValid (set name_hash L c now k value ttl)
  unfolding set on_evict
  set-IsValid c now k value ttl u v =
      let e : Entry V = record { value = value; expires_at = now + ttl } in
      let added = with_key k e (stored c) in
      let reg =
        register-IsConsistent name_hash IsUsed no_collision (stored c) added c.index k v e u
          (λ j. refl) in
      elim (Option-cases (L.add c.lru k e).1) [
        | inl q ↦
            rw q (IsConsistent-same name_hash IsUsed added _ _ (λ j. L.peek-add c.lru k j e q) reg)
        | inr (w, q) ↦ rw q (
            drop_from_index-IsConsistent name_hash IsUsed no_collision added _ _ w reg
              (λ j. L.peek-add_evicted c.lru k j w e q))
      ]

  pub remove_all-IsValid :
      (ks : List Key) (c : Cache) → IsValid c → IsValid (remove_all name_hash L c ks)
  unfolding remove_all
  remove_all-IsValid [] c v = v
  remove_all-IsValid (k ∷ ks) c v =
      remove_all-IsValid ks (remove_key name_hash L c k) (remove_key-IsValid c k v)

  pub stored-remove_all :
      (ks : List Key) (c : Cache) (j : Key)
      → stored (remove_all name_hash L c ks) j ≡ (if has ks j then none else stored c j)
  unfolding remove_all has
  stored-remove_all [] c j = refl
  stored-remove_all (k ∷ ks) c j =
      ground (arith, stored-remove_all ks (remove_key name_hash L c k) j, stored-remove_key c k j)

  pub invalidate_name-IsValid :
      (c : Cache) (n : Bytes) → IsValid c → IsValid (invalidate_name name_hash L c n)
  unfolding invalidate_name
  invalidate_name-IsValid c n v = elim (Option-cases (c.index.name_keys n)) [
    | inl e ↦ rw (e, invalidate_name) (remove_all-IsValid [] c v)
    | inr (ks, e) ↦ rw (e, invalidate_name) (remove_all-IsValid ks c v)
  ]

  pub invalidate_name_hash-IsValid :
      (c : Cache) (h : Bytes) → IsValid c → IsValid (invalidate_name_hash name_hash L c h)
  unfolding invalidate_name_hash
  invalidate_name_hash-IsValid c h v = elim (Option-cases (c.index.hash_names h)) [
    | inl e ↦ rw (e, invalidate_name_hash) v
    | inr (n, e) ↦ rw (e, invalidate_name_hash) (invalidate_name-IsValid c n v)
  ]

  lru-on_evict_all : (ks : List Key) (c : Cache) → (on_evict_all name_hash L c ks).lru ≡ c.lru
  unfolding on_evict_all on_evict
  lru-on_evict_all [] c = refl
  lru-on_evict_all (k ∷ ks) c = lru-on_evict_all ks _

  pub stored-flush : (c : Cache) (k : Key) → stored (flush name_hash L c) k ≡ none
  unfolding flush
  stored-flush c k =
      let s = L.purge c.lru in
      rw (lru-on_evict_all s.1 (record c { lru = s.0 })) (L.peek-purge c.lru k)

  pub flush-IsValid : (c : Cache) → IsValid (flush name_hash L c)
  flush-IsValid c = unfold flush in empty-IsConsistent _ (unfold flush in stored-flush c)

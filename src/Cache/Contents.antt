-- ===== src/Cache/Contents.antt =====
-- Which entries an operation of resolver/internal/cache/cache.go may add.
use mathlib.Core.Option.{some-injective}
use decentralized_dns.Base.{
  ℕ, ◌+◌, Bytes, List, [], ◌∷◌, some, ◌≡◌, ◌⊎◌, inl, inr, sym, ap, ◌∙◌, arith, Option-cases,
}
use decentralized_dns.Cache.Lru.{Key, Key-discrete, Lru}
use decentralized_dns.Cache.State
use decentralized_dns.Cache.State.{
  Entry, TtlCache, EventKind, RecordEvent, record_set, record_removed, transferred, registered,
  on_evict, remove_key, remove_all, invalidate_name, invalidate_name_hash, handle_kind,
  handle_event,
}
use decentralized_dns.Cache.Effects.{stored-set_self}

module _ (name_hash : Bytes → Bytes) {V : Type 0} (L : Lru (Entry V)) where
  -- every entry of the second cache is one of the first
  abbrev pub Within : TtlCache name_hash L → TtlCache name_hash L → Type 0
  Within c c' = (j : Key) (e : Entry V) → L.peek c'.lru j ≡ some e → L.peek c.lru j ≡ some e

  remove_key-Within : (c : TtlCache name_hash L) (k : Key) → Within c (remove_key name_hash L c k)
  unfolding remove_key on_evict
  remove_key-Within c k j e h = ground (arith, L.peek-remove c.lru k j)

  remove_all-Within :
      (ks : List Key) (c : TtlCache name_hash L) → Within c (remove_all name_hash L c ks)
  unfolding remove_all
  remove_all-Within [] c j e h = h
  remove_all-Within (k ∷ ks) c j e h =
      remove_key-Within c k j e (remove_all-Within ks (remove_key name_hash L c k) j e h)

  invalidate_name-Within :
      (c : TtlCache name_hash L) (n : Bytes) → Within c (invalidate_name name_hash L c n)
  unfolding invalidate_name
  invalidate_name-Within c n = elim (Option-cases (c.index.name_keys n)) [
    | inl q ↦ rw (q, invalidate_name) (remove_all-Within [] c)
    | inr (ks, q) ↦ rw (q, invalidate_name) (remove_all-Within ks c)
  ]

  invalidate_name_hash-Within :
      (c : TtlCache name_hash L) (h : Bytes) → Within c (invalidate_name_hash name_hash L c h)
  unfolding invalidate_name_hash
  invalidate_name_hash-Within c h = elim (Option-cases (c.index.hash_names h)) [
    | inl q ↦ rw (q, invalidate_name_hash) (λ j e x. x)
    | inr (n, q) ↦ rw (q, invalidate_name_hash) (invalidate_name-Within c n)
  ]

  handle_kind-Within :
      (kind : EventKind) (c : TtlCache name_hash L) (ev : RecordEvent)
      → Within c (handle_kind name_hash L kind c ev)
  unfolding handle_kind
  handle_kind-Within transferred c ev = invalidate_name_hash-Within c ev.name_hash
  handle_kind-Within record_set c ev = invalidate_name-Within c ev.name
  handle_kind-Within record_removed c ev = invalidate_name-Within c ev.name
  handle_kind-Within registered c ev = invalidate_name-Within c ev.name

  pub handle_event-Within :
      (c : TtlCache name_hash L) (ev : RecordEvent) → Within c (handle_event name_hash L c ev)
  unfolding handle_event
  handle_event-Within c ev = handle_kind-Within ev.kind c ev

  pub get-Within :
      (c : TtlCache name_hash L) (now : ℕ) (k : Key) → Within c (State.get name_hash L c now k).0
  unfolding State.get remove_key on_evict
  get-Within c now k j e h =
      ground (arith, L.peek-get c.lru k j, L.peek-remove (L.get c.lru k).1 k j)

  -- what a hit returns is stored
  pub get_stored :
      (c : TtlCache name_hash L) (now : ℕ) (k : Key) (v : V)
      → (State.get name_hash L c now k).1 ≡ some v
      → (t : ℕ) × (L.peek c.lru k ≡ some (record { value = v; expires_at = t }))
  unfolding State.get
  get_stored c now k v h = elim (Option-cases (L.get c.lru k).0) [
    | inl q ↦ absurd (ground (arith, q))
    | inr (e, q) ↦
        let same : e.value ≡ v = ground (arith, q) in
        (
          e.expires_at,
          sym (L.get-peek c.lru k)
              ∙ q
              ∙ ap (λ (x : V). some (record { value = x; expires_at = e.expires_at })) same,
        )
  ]

  pub set_stored :
      (c : TtlCache name_hash L) (now : ℕ) (k : Key) (value : V) (ttl : ℕ) (j : Key) (e : Entry V)
      → L.peek (State.set name_hash L c now k value ttl).lru j ≡ some e
      → ((j ≡ k) × (e.value ≡ value)) ⊎ (L.peek c.lru j ≡ some e)
  unfolding State.set on_evict
  set_stored c now k value ttl j e h =
      let new : Entry V = record { value = value; expires_at = now + ttl } in
      elim (Key-discrete j k) [
        | yes same ↦
            let stored : some new ≡ some e =
              sym (stored-set_self name_hash L c now k value ttl)
              ∙ ap (L.peek (State.set name_hash L c now k value ttl).lru) (sym same)
              ∙ h in
            inl (same, ap (λ (x : Entry V). x.value) (sym (some-injective new e stored)))
        | no ne ↦ inr (elim (Option-cases (L.add c.lru k new).1) [
          | inl q ↦ ground (arith, L.peek-add c.lru k j new q)
          | inr (w, q) ↦ ground (arith, L.peek-add_evicted c.lru k j w new q)
        ])
      ]

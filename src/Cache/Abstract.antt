-- ===== src/Cache/Abstract.antt =====
-- resolver/internal/cache/cache.go against what it stands for: a map without a capacity, in which an
-- entry lasts until the next one for its key, an event about its name, or a flush.
use decentralized_dns.Base.{
  ℕ, suc, ◌+◌, Bytes, Bytes-discrete, List, [], ◌∷◌, Bool, true, false, Option, none, some, ite,
  if◌then◌else◌, ltb, ◌≡◌, ◌≢◌, sym, ap, ◌∙◌, subst, arith, Option-cases, Bool-cases, inl, inr,
}
use decentralized_dns.Cache.Lru.{Key, Key-discrete, with_key, Lru}
use decentralized_dns.Cache.State
use decentralized_dns.Cache.State.{
  Entry, TtlCache, record_set, record_removed, transferred, registered, RecordEvent, new,
  handle_event,
}
use decentralized_dns.Cache.Steps.{
  IsValid, new-IsValid, get-IsValid, set-IsValid, flush-IsValid, stored-flush,
}
use decentralized_dns.Cache.Effects.{fresh, get_lem, stored-set_self, get-set_self}
use decentralized_dns.Cache.Contents.{handle_event-Within, get-Within, set_stored}
use decentralized_dns.Cache.Events.{
  Call, get, set, event, flush, SetsUsed, IsAbout, run, handle_event-IsValid, stored-handle_event,
}

-- the names that an event is about
abbrev pub affects : (Bytes → Bytes) → RecordEvent → Bytes → Bool
affects name_hash ev n = elim ev.kind [
  | transferred ↦ ite (Bytes-discrete ev.name_hash (name_hash n)) true false
  | record_set ↦ ite (Bytes-discrete ev.name n) true false
  | record_removed ↦ ite (Bytes-discrete ev.name n) true false
  | registered ↦ ite (Bytes-discrete ev.name n) true false
]

abbrev pub Map : Type 0 → Type 0
Map V = Key → Option (Entry V)

abbrev pub nothing : {V : Type 0} → Map V
nothing k = none

module _ (name_hash : Bytes → Bytes) {V : Type 0} where
  unfoldable pub map_step : Call V → Map V → Map V
  map_step (get now k) m = m
  map_step (set now k v ttl) m = with_key k (record { value = v; expires_at = now + ttl }) m
  map_step (event ev) m = λ k. if affects name_hash ev k.name then none else m k
  map_step flush m = nothing

  -- a read of the key that was just set
  fresh-map_step :
      (at now : ℕ) (k : Key) (x : V) (ttl : ℕ) (m : Map V)
      → fresh now (map_step (set at k x ttl) m k) ≡ (if ltb (at + ttl) now then none else some x)
  unfolding map_step
  fresh-map_step at now k x ttl m = ground arith

  unfoldable pub map_run : List (Call V) → Map V → Map V
  map_run [] m = m
  map_run (c ∷ calls) m = map_run calls (map_step c m)

module _ (name_hash : Bytes → Bytes) (IsUsed : Bytes → Type 0)
    (no_collision : (m n : Bytes) → IsUsed m → IsUsed n → name_hash m ≡ name_hash n → m ≡ n)
    {V : Type 0} (L : Lru (Entry V)) where
  abbrev Valid : TtlCache name_hash L → Type 0
  Valid = IsValid name_hash IsUsed no_collision L

  -- the cache may have lost entries of the map, and has no others
  abbrev Refines : TtlCache name_hash L → Map V → Type 0
  Refines c m = (j : Key) (e : Entry V) → L.peek c.lru j ≡ some e → m j ≡ some e

  stored_used :
      (c : TtlCache name_hash L) (j : Key) → Valid c → L.peek c.lru j ≢ none → IsUsed j.name
  stored_used c j v l = elim (Option-cases (c.index.name_keys j.name)) [
    | inl e ↦ absurd (ground (arith, v.live j l, e))
    | inr (ks, e) ↦ v.used j.name (λ z. ground arith)
  ]

  affects-IsAbout :
      (ev : RecordEvent) (n : Bytes)
      → IsUsed n
      → affects name_hash ev n ≡ true
      → IsAbout name_hash IsUsed ev n
  affects-IsAbout ev n u h = ground arith

  event-Refines :
      (c : TtlCache name_hash L) (m : Map V) (ev : RecordEvent)
      → Valid c
      → Refines c m
      → Refines (handle_event name_hash L c ev) (map_step name_hash (event ev) m)
  unfolding map_step
  event-Refines c m ev v r j e h =
      let before = handle_event-Within name_hash L c ev j e h in
      elim (Bool-cases (affects name_hash ev j.name)) [
        | inr out ↦ rw out (r j e before)
        | inl hit ↦
            let used = stored_used c j v (λ z. cc) in
            let about = affects-IsAbout ev j.name used hit in
            absurd (
              ground (
                arith,
                h,
                stored-handle_event name_hash IsUsed no_collision L c ev j.name j v about,
              ))
      ]

  set-Refines :
      (c : TtlCache name_hash L) (m : Map V) (now : ℕ) (k : Key) (x : V) (ttl : ℕ)
      → Refines c m
      → Refines (State.set name_hash L c now k x ttl) (map_step name_hash (set now k x ttl) m)
  unfolding map_step
  set-Refines c m now k x ttl r j e h = elim (Key-discrete j k) [
    | yes same ↦ ground (
      arith,
      h,
      same,
      ap (L.peek (State.set name_hash L c now k x ttl).lru) same,
      stored-set_self name_hash L c now k x ttl,
    )
    | no ne ↦ elim (set_stored name_hash L c now k x ttl j e h) [
      | inl (eq, _) ↦ absurd (ne eq)
      | inr before ↦ ground (arith, ne, r j e before)
    ]
  ]

  run-Refines :
      (calls : List (Call V)) (c : TtlCache name_hash L) (m : Map V)
      → SetsUsed IsUsed calls
      → Valid c
      → Refines c m
      → Refines (run name_hash L calls c) (map_run name_hash calls m)
  unfolding run map_run
  run-Refines [] c m u v r = r
  run-Refines (get now k ∷ calls) c m u v r =
      run-Refines calls _ _ u (get-IsValid name_hash IsUsed no_collision L c now k v)
        (λ j e h. unfold map_step in r j e (get-Within name_hash L c now k j e h))
  run-Refines (set now k x ttl ∷ calls) c m u v r =
      run-Refines calls _ _ u.1 (set-IsValid name_hash IsUsed no_collision L c now k x ttl u.0 v)
        (set-Refines c m now k x ttl r)
  run-Refines (event ev ∷ calls) c m u v r =
      run-Refines calls _ _ u (handle_event-IsValid name_hash IsUsed no_collision L c ev v)
        (event-Refines c m ev v r)
  run-Refines (flush ∷ calls) c m u v r =
      run-Refines calls _ _ u (flush-IsValid name_hash IsUsed no_collision L c)
        (λ j e h. absurd (ground (arith, h, stored-flush name_hash IsUsed no_collision L c j)))

  -- For names in use whose hashes do not collide, the cache refines a map without a capacity, after
  -- any calls: a value that `Get` returns is the one that the map holds for the key and has not
  -- expired, and right after a `Set`, `Get` of that key answers exactly as the map does.
  pub get-run :
      (n : ℕ) (c : TtlCache name_hash L) (calls : List (Call V))
      → new name_hash L (suc n) ≡ some c
      → SetsUsed IsUsed calls
      → ((now : ℕ) (k : Key) (x : V)
          → (State.get name_hash L (run name_hash L calls c) now k).1 ≡ some x
          → fresh now (map_run name_hash calls nothing k) ≡ some x)
        × ((at now : ℕ) (k : Key) (x : V) (ttl : ℕ)
            → (State.get name_hash L
                (State.set name_hash L (run name_hash L calls c) at k x ttl)
                now
                k).1
              ≡ fresh now (map_step name_hash (set at k x ttl) (map_run name_hash calls nothing) k))
  get-run n c calls e u =
      let (c0, e0, v0, empty) = new-IsValid name_hash IsUsed no_collision L n in
      let same : c0 ≡ c = cc in
      let v : Valid c = subst Valid same v0 in
      let r : Refines c nothing = λ j x h. absurd (
        ground
          (arith, h, subst (λ (b : TtlCache name_hash L). L.peek b.lru j ≡ none) same (empty j))) in
      let refined = run-Refines calls c nothing u v r in
      (
        λ now k x h. elim (Option-cases (L.peek (run name_hash L calls c).lru k)) [
          | inl out ↦
              absurd
                (ground (arith, h, out, (get_lem name_hash L (run name_hash L calls c) now k).0))
          | inr (entry, held) ↦ ground (
            arith,
            h,
            held,
            refined k entry held,
            (get_lem name_hash L (run name_hash L calls c) now k).0,
          )
        ],
        λ at now k x ttl.
            get-set_self name_hash L (run name_hash L calls c) at now k x ttl
            ∙ sym (fresh-map_step name_hash at now k x ttl (map_run name_hash calls nothing)),
      )

-- ===== src/Cache/Events.antt =====
-- Runs of the methods of resolver/internal/cache/cache.go, under the one mutex that makes each call
-- atomic, with the contract events that server.go hands to HandleEvent.
use decentralized_dns.Base.{
  ℕ, suc, Bytes, Bytes-discrete, List, [], ◌∷◌, none, some, ite, ◌≡◌, subst, arith,
}
use decentralized_dns.Cache.Lru.{Key, Lru}
use decentralized_dns.Cache.State
use decentralized_dns.Cache.State.{
  Entry, EventKind, record_set, record_removed, transferred, registered, RecordEvent, TtlCache, new,
  handle_kind, handle_event,
}
use decentralized_dns.Cache.Steps.{
  IsValid, new-IsValid, get-IsValid, set-IsValid, flush-IsValid, invalidate_name-IsValid,
  invalidate_name_hash-IsValid,
}
use decentralized_dns.Cache.Effects.{get_lem, stored-invalidate_name, stored-invalidate_name_hash}

pub data Call (V : Type 0) : Type 0 where
  get : ℕ → Key → Call V
  set : ℕ → Key → V → ℕ → Call V
  event : RecordEvent → Call V
  flush : Call V

-- the names that a run stores keys under are among the used ones
abbrev pub SetsUsed : {V : Type 0} → (Bytes → Type 0) → List (Call V) → Type 0
SetsUsed IsUsed [] = Unit
SetsUsed IsUsed (set now k v ttl ∷ calls) = IsUsed k.name × SetsUsed IsUsed calls
SetsUsed IsUsed (get now k ∷ calls) = SetsUsed IsUsed calls
SetsUsed IsUsed (event ev ∷ calls) = SetsUsed IsUsed calls
SetsUsed IsUsed (flush ∷ calls) = SetsUsed IsUsed calls

-- Which name an event is about: the one it carries, or for a transfer the one that it hashes to.
abbrev pub IsAbout : (Bytes → Bytes) → (Bytes → Type 0) → RecordEvent → Bytes → Type 0
IsAbout name_hash IsUsed ev n = elim ev.kind [
  | transferred ↦ IsUsed n × (ev.name_hash ≡ name_hash n)
  | record_set ↦ IsUsed n × (ev.name ≡ n)
  | record_removed ↦ IsUsed n × (ev.name ≡ n)
  | registered ↦ IsUsed n × (ev.name ≡ n)
]

module _ (name_hash : Bytes → Bytes) {V : Type 0} (L : Lru (Entry V)) where
  unfoldable pub run : List (Call V) → TtlCache name_hash L → TtlCache name_hash L
  run [] c = c
  run (get now k ∷ calls) c = run calls (State.get name_hash L c now k).0
  run (set now k v ttl ∷ calls) c = run calls (State.set name_hash L c now k v ttl)
  run (event ev ∷ calls) c = run calls (handle_event name_hash L c ev)
  run (flush ∷ calls) c = run calls (State.flush name_hash L c)

module _ (name_hash : Bytes → Bytes) (IsUsed : Bytes → Type 0)
    (no_collision : (m n : Bytes) → IsUsed m → IsUsed n → name_hash m ≡ name_hash n → m ≡ n)
    {V : Type 0} (L : Lru (Entry V)) where
  abbrev Valid : TtlCache name_hash L → Type 0
  Valid = IsValid name_hash IsUsed no_collision L

  pub handle_event-IsValid :
      (c : TtlCache name_hash L) (ev : RecordEvent)
      → Valid c
      → Valid (handle_event name_hash L c ev)
  unfolding handle_event
  handle_event-IsValid c ev v = go ev.kind
    where
      go : (kind : EventKind) → Valid (handle_kind name_hash L kind c ev)
      go transferred = invalidate_name_hash-IsValid name_hash IsUsed no_collision L c ev.name_hash v
      go record_set = invalidate_name-IsValid name_hash IsUsed no_collision L c ev.name v
      go record_removed = invalidate_name-IsValid name_hash IsUsed no_collision L c ev.name v
      go registered = invalidate_name-IsValid name_hash IsUsed no_collision L c ev.name v

  -- Every sequence of calls keeps the two name indexes and the LRU consistent.
  pub run-IsValid :
      (calls : List (Call V)) (c : TtlCache name_hash L)
      → SetsUsed IsUsed calls
      → Valid c
      → Valid (run name_hash L calls c)
  unfolding run
  run-IsValid [] c u v = v
  run-IsValid (get now k ∷ calls) c u v =
      run-IsValid calls _ u (get-IsValid name_hash IsUsed no_collision L c now k v)
  run-IsValid (set now k x ttl ∷ calls) c u v =
      run-IsValid calls _ u.1 (set-IsValid name_hash IsUsed no_collision L c now k x ttl u.0 v)
  run-IsValid (event ev ∷ calls) c u v = run-IsValid calls _ u (handle_event-IsValid c ev v)
  run-IsValid (flush ∷ calls) c u v =
      run-IsValid calls _ u (flush-IsValid name_hash IsUsed no_collision L c)

  -- An event about a name drops all its entries, and no other.
  pub stored-handle_event :
      (c : TtlCache name_hash L) (ev : RecordEvent) (n : Bytes) (j : Key)
      → Valid c
      → IsAbout name_hash IsUsed ev n
      → L.peek (handle_event name_hash L c ev).lru j
        ≡ ite (Bytes-discrete j.name n) none (L.peek c.lru j)
  unfolding handle_event handle_kind
  stored-handle_event c ev n j v about = ground (
    arith,
    stored-invalidate_name name_hash IsUsed no_collision L c v n j,
    stored-invalidate_name_hash name_hash IsUsed no_collision L c v n j,
  )

  -- With names in use whose hashes do not collide: after any run from a new cache of positive
  -- capacity, an event about a name makes every later read of the name's keys a miss, whatever was
  -- stored, evicted or indexed before; reads of other names answer as they did.
  pub get-handle_event :
      (n : ℕ) (c : TtlCache name_hash L) (calls : List (Call V)) (ev : RecordEvent) (name : Bytes)
      (now : ℕ) (k : Key)
      → new name_hash L (suc n) ≡ some c
      → SetsUsed IsUsed calls
      → IsAbout name_hash IsUsed ev name
      → let before = run name_hash L calls c in
        (State.get name_hash L (handle_event name_hash L before ev) now k).1
        ≡ ite (Bytes-discrete k.name name) none (State.get name_hash L before now k).1
  get-handle_event n c calls ev name now k e u about =
      let before = run name_hash L calls c in
      let (c0, e0, v0, _) = new-IsValid name_hash IsUsed no_collision L n in
      let same : c0 ≡ c = cc in
      let v : Valid c = subst Valid same v0 in
      ground (
        arith,
        stored-handle_event before ev name k (run-IsValid calls c u v) about,
        (get_lem name_hash L before now k).0,
        (get_lem name_hash L (handle_event name_hash L before ev) now k).0,
      )

-- ===== src/Cache/State.antt =====
-- resolver/internal/cache/cache.go: the state of TTLCache and its methods. Times are nanosecond
-- counts; the reading of the injectable clock is an argument. A Go map is a function; the inner
-- set of keys of one name is the list of its members, in the order in which Go happens to range
-- over it.
use decentralized_dns.Base.{
  ℕ, ◌+◌, ◌%◌, ◌^◌, Bytes, Bytes-discrete, List, [], ◌∷◌, Option, none, some, Bool, true, false,
  ite, ltb, if◌then◌else◌,
}
use decentralized_dns.Base.Maps.{GoMap, update}
use decentralized_dns.Cache.Lru.{Key, Key-discrete, Lru}

-- chain.EventKind
pub data EventKind : Type 0 where
  record_set record_removed transferred registered : EventKind

-- chain.RecordEvent
pub record RecordEvent : Type 0 where
  pub kind : EventKind
  pub name : Bytes
  pub name_hash : Bytes
  pub record_type : Bytes
  pub selector : Bytes
  pub block : ℕ

pub record Entry (V : Type 0) : Type 0 where
  pub value : V
  pub expires_at : ℕ

pub record Stats : Type 0 where
  pub hits : ℕ
  pub misses : ℕ
  pub evictions : ℕ
  pub entries : ℕ
  pub capacity : ℕ

-- membership in, and deletion from, the set of keys of a name
unfoldable pub has : List Key → Key → Bool
has [] k = false
has (j ∷ js) k = ite (Key-discrete k j) true (has js k)

unfoldable pub without : List Key → Key → List Key
without [] k = []
without (j ∷ js) k = ite (Key-discrete k j) (without js k) (j ∷ without js k)

-- keys[k] = struct{}{}
unfoldable pub insert_key : List Key → Key → List Key
insert_key ks k = if has ks k then ks else k ∷ ks

-- atomic.Uint64.Add(1)
abbrev pub incr : ℕ → ℕ
incr n = (n + 1) % 2 ^ 64

-- the two name indexes
pub record Index : Type 0 where
  pub name_keys : GoMap Bytes (List Key)
  pub hash_names : GoMap Bytes Bytes

module _ (name_hash : Bytes → Bytes) where
  -- the branch of dropFromIndex on the keys that are left
  unfoldable pub drop_left : Index → Bytes → List Key → Index
  drop_left ix n [] = record {
    name_keys = update Bytes-discrete ix.name_keys n none;
    hash_names = update Bytes-discrete ix.hash_names (name_hash n) none;
  }
  drop_left ix n (k ∷ ks) = record {
    name_keys = update Bytes-discrete ix.name_keys n (some (k ∷ ks));
    hash_names = ix.hash_names;
  }

  unfoldable pub drop_from_index : Index → Key → Index
  unfolding drop_left
  drop_from_index ix k = elim (ix.name_keys k.name) [
    | none ↦ ix
    | some keys ↦ drop_left ix k.name (without keys k)
  ]

  -- the index registration of Set
  unfoldable pub register : Index → Key → Index
  register ix k = elim (ix.name_keys k.name) [
    | none ↦ record {
      name_keys = update Bytes-discrete ix.name_keys k.name (some (insert_key [] k));
      hash_names = update Bytes-discrete ix.hash_names (name_hash k.name) (some k.name);
    }
    | some keys ↦ record {
      name_keys = update Bytes-discrete ix.name_keys k.name (some (insert_key keys k));
      hash_names = ix.hash_names;
    }
  ]

module _ (name_hash : Bytes → Bytes) {V : Type 0} (L : Lru (Entry V)) where
  open L use {Store}

  pub record TtlCache : Type 0 where
    pub lru : Store
    pub index : Index
    pub capacity : ℕ
    pub hits : ℕ
    pub misses : ℕ
    pub evictions : ℕ

  unfoldable pub new : ℕ → Option TtlCache
  new capacity = elim (L.new capacity) [
    | none ↦ none
    | some s ↦ some (record {
      lru = s;
      index = record { name_keys = λ n. none; hash_names = λ h. none };
      capacity = capacity;
      hits = 0;
      misses = 0;
      evictions = 0;
    })
  ]

  -- the eviction callback, on the key that an LRU call evicts
  unfoldable pub on_evict : TtlCache → Option Key → TtlCache
  on_evict c none = c
  on_evict c (some k) = record c {
    evictions = incr c.evictions;
    index = drop_from_index name_hash c.index k;
  }

  unfoldable pub on_evict_all : TtlCache → List Key → TtlCache
  on_evict_all c [] = c
  on_evict_all c (k ∷ ks) = on_evict_all (on_evict c (some k)) ks

  -- c.lru.Remove(k) with its callback
  unfoldable pub remove_key : TtlCache → Key → TtlCache
  remove_key c k = let (s, evicted) = L.remove c.lru k in on_evict (record c { lru = s }) evicted

  unfoldable pub get : TtlCache → ℕ → Key → TtlCache × Option V
  get c now k =
      let (found, s) = L.get c.lru k in
      elim found [
        | none ↦ (record c { lru = s; misses = incr c.misses }, none)
        | some e ↦
            let dropped = remove_key (record c { lru = s }) k in
            if ltb e.expires_at now
            then (record dropped { misses = incr dropped.misses }, none)
            else (record c { lru = s; hits = incr c.hits }, some e.value)
      ]

  unfoldable pub set : TtlCache → ℕ → Key → V → ℕ → TtlCache
  set c now k value ttl =
      let indexed = record c { index = register name_hash c.index k } in
      let (s, evicted) = L.add c.lru k (record { value = value; expires_at = now + ttl }) in
      on_evict (record indexed { lru = s }) evicted

  -- the second loop of invalidateNameLocked, over the copied keys
  unfoldable pub remove_all : TtlCache → List Key → TtlCache
  remove_all c [] = c
  remove_all c (k ∷ ks) = remove_all (remove_key c k) ks

  unfoldable pub invalidate_name : TtlCache → Bytes → TtlCache
  invalidate_name c name = elim (c.index.name_keys name) [
    | none ↦ remove_all c []
    | some keys ↦ remove_all c keys
  ]

  unfoldable pub invalidate_name_hash : TtlCache → Bytes → TtlCache
  invalidate_name_hash c hash = elim (c.index.hash_names hash) [
    | none ↦ c
    | some name ↦ invalidate_name c name
  ]

  unfoldable pub flush : TtlCache → TtlCache
  flush c =
      let (s, evicted) = L.purge c.lru in
      let c' = on_evict_all (record c { lru = s }) evicted in
      record c' { index = record { name_keys = λ n. none; hash_names = λ h. none } }

  -- the switch of HandleEvent
  unfoldable pub handle_kind : EventKind → TtlCache → RecordEvent → TtlCache
  handle_kind transferred c ev = invalidate_name_hash c ev.name_hash
  handle_kind record_set c ev = invalidate_name c ev.name
  handle_kind record_removed c ev = invalidate_name c ev.name
  handle_kind registered c ev = invalidate_name c ev.name

  unfoldable pub handle_event : TtlCache → RecordEvent → TtlCache
  unfolding handle_kind
  handle_event c ev = handle_kind ev.kind c ev

  pub stats : TtlCache → Stats
  stats c = record {
    hits = c.hits;
    misses = c.misses;
    evictions = c.evictions;
    entries = L.len c.lru;
    capacity = c.capacity;
  }

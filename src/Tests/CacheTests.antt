-- ===== src/Tests/CacheTests.antt =====
-- The TTL cache of resolver/internal/cache/cache.go at concrete inputs.
use decentralized_dns.Base.{
  ℕ, Bytes, Bytes-discrete, codes, List, [], ◌∷◌, none, some, ite, ◌≡◌, refl,
}
use decentralized_dns.Cache.Lru.{Key, Key-discrete}
use decentralized_dns.Cache.State
use decentralized_dns.Cache.State.{TtlCache, Entry, RecordEvent, record_set, transferred}
use decentralized_dns.Cache.Events.{Call, run, get-handle_event}
use decentralized_dns.Cache.Abstract.{nothing, map_run, map_step, get-run}
use decentralized_dns.Cache.Effects.{fresh}
use decentralized_dns.Tests.OneSlot.{one_slot}

-- an injective stand-in for keccak256
abbrev hash : Bytes → Bytes
hash n = n

abbrev site : Key
site = record { name = codes "alice"; rtype = codes "A"; selector = [] }

abbrev empty : TtlCache hash {V = ℕ} one_slot
empty = record {
  lru = none;
  index = record { name_keys = λ n. none; hash_names = λ h. none };
  capacity = 1;
  hits = 0;
  misses = 0;
  evictions = 0;
}

abbrev moved : RecordEvent
moved = record {
  kind = transferred;
  name = [];
  name_hash = codes "alice";
  record_type = [];
  selector = [];
  block = 7;
}

abbrev filled : List (Call ℕ)
filled = Call.set 100 site 7 60 ∷ Call.get 120 site ∷ []

hit : (State.get hash one_slot (run hash one_slot filled empty) 160 site).1 ≡ some 7
unfolding run State.get State.set State.register State.insert_key State.on_evict Key-discrete
    State.has
hit = refl

get-handle_event_example :
    (State.get hash one_slot
      (State.handle_event hash one_slot (run hash one_slot filled empty) moved)
      130
      site).1
    ≡ ite
        (Bytes-discrete site.name (codes "alice"))
        none
        (State.get hash one_slot (run hash one_slot filled empty) 130 site).1
get-handle_event_example =
    get-handle_event hash (λ n. Unit {0}) (λ m n u w e. e) one_slot 0 empty filled moved
      (codes "alice") 130 site (unfold State.new in refl) (tt, tt) (tt, refl)

get-run_example :
    ((now : ℕ) (k : Key) (x : ℕ)
      → (State.get hash one_slot (run hash one_slot filled empty) now k).1 ≡ some x
      → fresh now (map_run hash filled nothing k) ≡ some x)
    × ((at now : ℕ) (k : Key) (x : ℕ) (ttl : ℕ)
        → (State.get hash one_slot
            (State.set hash one_slot (run hash one_slot filled empty) at k x ttl)
            now
            k).1
          ≡ fresh now (map_step hash (Call.set at k x ttl) (map_run hash filled nothing) k))
get-run_example =
    get-run hash (λ n. Unit {0}) (λ m n u w e. e) one_slot 0 empty filled (unfold State.new in refl)
      (tt, tt)

-- ===== src/Tests/OneSlot.antt =====
-- An LRU of one entry, to run the cache of resolver/internal/cache/cache.go on: an `Add` of another
-- key evicts.
use decentralized_dns.Base.{
  ℕ, zero, suc, List, [], ◌∷◌, Option, none, some, ite, ◌≡◌, ◌≢◌, refl, arith,
}
use decentralized_dns.Cache.Lru.{Key, Key-discrete, with_key, without_key, Lru}

module _ {E : Type 0} where
  abbrev pub peek : Option (Key × E) → Key → Option E
  peek none k = none
  peek (some (j, e)) k = ite (Key-discrete k j) (some e) none

  abbrev pub add : Option (Key × E) → Key → E → Option (Key × E) × Option Key
  add none k e = (some (k, e), none)
  add (some (j, d)) k e = (some (k, e), ite (Key-discrete k j) none (some j))

  abbrev pub remove : Option (Key × E) → Key → Option (Key × E) × Option Key
  remove none k = (none, none)
  remove (some (j, e)) k = ite (Key-discrete k j) (none, some k) (some (j, e), none)

  abbrev pub new : ℕ → Option (Option (Key × E))
  new zero = none
  new (suc n) = some none

  abbrev pub stored_keys : Option (Key × E) → List Key
  stored_keys none = []
  stored_keys (some (j, e)) = j ∷ []

  abbrev pub size : Option (Key × E) → ℕ
  size none = 0
  size (some x) = 1

  pub peek-add_lem :
      (s : Option (Key × E)) (k j : Key) (e : E)
      → (add s k e).1 ≡ none
      → peek (add s k e).0 j ≡ with_key k e (peek s) j
  peek-add_lem none k j e h = ground arith
  peek-add_lem (some (i, d)) k j e h = ground arith

  pub peek-add_evicted_lem :
      (s : Option (Key × E)) (k j v : Key) (e : E)
      → (add s k e).1 ≡ some v
      → peek (add s k e).0 j ≡ without_key v (with_key k e (peek s)) j
  peek-add_evicted_lem none k j v e h = cc
  peek-add_evicted_lem (some (i, d)) k j v e h = ground arith

  pub evicted_ne_lem : (s : Option (Key × E)) (k v : Key) (e : E) → (add s k e).1 ≡ some v → v ≢ k
  evicted_ne_lem none k v e h = cc
  evicted_ne_lem (some (i, d)) k v e h = ground arith

  pub peek-remove_lem :
      (s : Option (Key × E)) (k j : Key) → peek (remove s k).0 j ≡ without_key k (peek s) j
  peek-remove_lem none k j = ground arith
  peek-remove_lem (some (i, d)) k j = ground arith

  pub remove_present_lem :
      (s : Option (Key × E)) (k : Key) (e : E) → peek s k ≡ some e → (remove s k).1 ≡ some k
  remove_present_lem none k e h = cc
  remove_present_lem (some (i, d)) k e h = ground arith

  pub remove_absent_lem : (s : Option (Key × E)) (k : Key) → peek s k ≡ none → (remove s k).1 ≡ none
  remove_absent_lem none k h = refl
  remove_absent_lem (some (i, d)) k h = ground arith

abbrev pub one_slot : {E : Type 0} → Lru E
one_slot {E} = record {
  Store = Option (Key × E);
  new = new;
  peek = peek;
  get = λ s k. (peek s k, s);
  add = add;
  remove = remove;
  purge = λ s. (none, stored_keys s);
  len = size;
  new-zero = refl;
  new-suc = λ n. (none, refl, λ k. refl);
  get-peek = λ s k. refl;
  peek-get = λ s k j. refl;
  peek-add = peek-add_lem;
  peek-add_evicted = peek-add_evicted_lem;
  evicted_ne = evicted_ne_lem;
  peek-remove = peek-remove_lem;
  remove_present = remove_present_lem;
  remove_absent = remove_absent_lem;
  peek-purge = λ s j. refl;
}

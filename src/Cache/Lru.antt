-- ===== src/Cache/Lru.antt =====
-- The bounded LRU of github.com/hashicorp/golang-lru, as an interface: what
-- resolver/internal/cache/cache.go calls, and the documented effect of each call on the stored
-- entries. The key that a call hands to the eviction callback is returned beside the new store.
use decentralized_dns.Base.{
  ℕ, zero, suc, Bytes, Bytes-discrete, List, Option, none, some, ◌≡◌, ◌≢◌, ap, ite,
}

-- cache.Key
pub record Key : Type 0 where
  pub name : Bytes
  pub rtype : Bytes
  pub selector : Bytes

unfoldable pub Key-discrete : Discrete Key
unfolding Bytes-discrete
Key-discrete a b = elim (Bytes-discrete a.name b.name) [
  | no h ↦ no (λ e. h (ap (λ (k : Key). k.name) e))
  | yes p ↦ elim (Bytes-discrete a.rtype b.rtype) [
    | no h ↦ no (λ e. h (ap (λ (k : Key). k.rtype) e))
    | yes q ↦ elim (Bytes-discrete a.selector b.selector) [
      | no h ↦ no (λ e. h (ap (λ (k : Key). k.selector) e))
      | yes r ↦ yes (λ i. record { name = p i; rtype = q i; selector = r i })
    ]
  ]
]

-- a store with the key added, and with the key dropped
abbrev pub with_key {ℓ} : {E : Type ℓ} → Key → E → (Key → Option E) → Key → Option E
with_key k e p j = ite (Key-discrete j k) (some e) (p j)

abbrev pub without_key {ℓ} : {E : Type ℓ} → Key → (Key → Option E) → Key → Option E
without_key k p j = ite (Key-discrete j k) none (p j)

pub record Lru (E : Type 0) : Type 1 where
  pub Store : Type 0
  pub new : ℕ → Option Store
  pub peek : Store → Key → Option E
  pub get : Store → Key → Option E × Store
  pub add : Store → Key → E → Store × Option Key
  pub remove : Store → Key → Store × Option Key
  pub purge : Store → Store × List Key
  pub len : Store → ℕ
  pub new-zero : new zero ≡ none
  pub new-suc : (n : ℕ) → (s : Store) × (new (suc n) ≡ some s) × ((k : Key) → peek s k ≡ none)
  pub get-peek : (s : Store) (k : Key) → (get s k).0 ≡ peek s k
  pub peek-get : (s : Store) (k j : Key) → peek (get s k).1 j ≡ peek s j
  -- an `Add` with no eviction
  pub peek-add :
      (s : Store) (k j : Key) (e : E)
      → (add s k e).1 ≡ none
      → peek (add s k e).0 j ≡ with_key k e (peek s) j
  -- an `Add` that evicts another entry
  pub peek-add_evicted :
      (s : Store) (k j v : Key) (e : E)
      → (add s k e).1 ≡ some v
      → peek (add s k e).0 j ≡ without_key v (with_key k e (peek s)) j
  pub evicted_ne : (s : Store) (k v : Key) (e : E) → (add s k e).1 ≡ some v → v ≢ k
  pub peek-remove : (s : Store) (k j : Key) → peek (remove s k).0 j ≡ without_key k (peek s) j
  -- `Remove` calls the callback exactly for a key that is there
  pub remove_present : (s : Store) (k : Key) (e : E) → peek s k ≡ some e → (remove s k).1 ≡ some k
  pub remove_absent : (s : Store) (k : Key) → peek s k ≡ none → (remove s k).1 ≡ none
  pub peek-purge : (s : Store) (j : Key) → peek (purge s).0 j ≡ none

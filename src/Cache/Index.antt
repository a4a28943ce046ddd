-- ===== src/Cache/Index.antt =====
-- The two name indexes of resolver/internal/cache/cache.go against the stored entries.
use decentralized_dns.Base.{
  Bytes, Bytes-discrete, List, [], ◌∷◌, Option, none, some, Bool, true, false, ite, ◌≡◌, ◌≢◌, inl,
  inr, refl, arith, Option-cases,
}
use decentralized_dns.Base.Maps.{GoMap}
use decentralized_dns.Cache.Lru.{Key, Key-discrete, with_key, without_key}
use decentralized_dns.Cache.State.{
  has, without, insert_key, Index, drop_left, drop_from_index, register,
}

pub has-without :
    (ks : List Key) (k j : Key) → has (without ks k) j ≡ (ite (Key-discrete j k) false (has ks j))
unfolding has without
has-without [] k j = ground arith
has-without (i ∷ ks) k j = ground (arith, has-without ks k j)

pub has-insert_key :
    (ks : List Key) (k j : Key) → has (insert_key ks k) j ≡ (ite (Key-discrete j k) true (has ks j))
unfolding insert_key has
has-insert_key ks k j = ground arith

has_nil : (k : Key) → has [] k ≡ false
unfolding has
has_nil k = refl

insert_key-ne-nil : (ks : List Key) (k : Key) → insert_key ks k ≢ []
unfolding insert_key has
insert_key-ne-nil [] k = ground arith
insert_key-ne-nil (j ∷ ks) k = ground arith

-- whether the index holds key k under name n
abbrev pub member : GoMap Bytes (List Key) → Bytes → Key → Bool
member m n k = elim (m n) [ none ↦ false | some ks ↦ has ks k ]

-- What the indexes say of the stored entries.
pub record IsConsistent {E : Type 0} (name_hash : Bytes → Bytes) (IsUsed : Bytes → Type 0)
    (p : Key → Option E) (ix : Index) : Type 0 where
  -- every stored key is indexed under its name
  pub live : (k : Key) → p k ≢ none → member ix.name_keys k.name k ≡ true
  -- every indexed key is stored, and has that name
  pub named : (n : Bytes) (k : Key) → member ix.name_keys n k ≡ true → (k.name ≡ n) × (p k ≢ none)
  pub nonempty : (n : Bytes) → ix.name_keys n ≢ some []
  pub used : (n : Bytes) → ix.name_keys n ≢ none → IsUsed n
  -- the hash index holds the hash of each indexed name, and nothing else
  pub hashed : (n : Bytes) → ix.name_keys n ≢ none → ix.hash_names (name_hash n) ≡ some n
  pub hash_sound :
      (h n : Bytes) → ix.hash_names h ≡ some n → (name_hash n ≡ h) × (ix.name_keys n ≢ none)

module _ (name_hash : Bytes → Bytes) (ix : Index) (k : Key) where
  member-register :
      (n : Bytes) (j : Key)
      → member (register name_hash ix k).name_keys n j ≡ (
          ite
            (Bytes-discrete n k.name)
            (ite (Key-discrete j k) true (member ix.name_keys n j))
            (member ix.name_keys n j))
  unfolding register
  member-register n j = elim (Option-cases (ix.name_keys k.name)) [
    | inl e ↦ ground (arith, has-insert_key [] k j, has_nil j)
    | inr (ks, e) ↦ ground (arith, has-insert_key ks k j)
  ]

  member-drop_from_index :
      (n : Bytes) (j : Key)
      → member (drop_from_index name_hash ix k).name_keys n j ≡ (
          ite
            (Bytes-discrete n k.name)
            (ite (Key-discrete j k) false (member ix.name_keys n j))
            (member ix.name_keys n j))
  unfolding drop_from_index drop_left
  member-drop_from_index n j = elim (Option-cases (ix.name_keys k.name)) [
    | inl e ↦ ground arith
    | inr (ks, e) ↦ ground (arith, has-without ks k j, has_nil j)
  ]

module _ {E : Type 0} (name_hash : Bytes → Bytes) (IsUsed : Bytes → Type 0)
    (no_collision : (m n : Bytes) → IsUsed m → IsUsed n → name_hash m ≡ name_hash n → m ≡ n)
    (p p' : Key → Option E) (ix : Index) (k : Key) (c : IsConsistent name_hash IsUsed p ix) where
  -- Registering a key and storing it keeps the indexes consistent.
  pub register-IsConsistent :
      (e : E)
      → IsUsed k.name
      → ((j : Key) → p' j ≡ with_key k e p j)
      → IsConsistent name_hash IsUsed p' (register name_hash ix k)
  register-IsConsistent e u h = record {
    live = λ j pj. ground (arith, member-register name_hash ix k j.name j, c.live j, h j);
    named = λ n j m. ground (arith, member-register name_hash ix k n j, c.named n j, h j);
    nonempty = λ n. elim (Option-cases (ix.name_keys k.name)) [
      | inl e ↦ unfold register in ground (arith, c.nonempty n, insert_key-ne-nil [] k)
      | inr (ks, e) ↦ unfold register in ground (arith, c.nonempty n, insert_key-ne-nil ks k)
    ];
    used = λ n m. unfold register in ground (arith, c.used n, u);
    hashed =
        λ n m. unfold register in ground (arith, c.hashed n, no_collision n k.name, c.used n, u);
    hash_sound = λ hh n m.
        unfold register in ground (arith, c.hash_sound hh n, no_collision n k.name, c.used n, u);
  }

  -- Dropping a key from the indexes and from the store keeps them consistent.
  pub drop_from_index-IsConsistent :
      ((j : Key) → p' j ≡ without_key k p j)
      → IsConsistent name_hash IsUsed p' (drop_from_index name_hash ix k)
  drop_from_index-IsConsistent h = record {
    live = λ j pj. ground (arith, member-drop_from_index name_hash ix k j.name j, c.live j, h j);
    named = λ n j m. ground (arith, member-drop_from_index name_hash ix k n j, c.named n j, h j);
    nonempty = λ n. unfold drop_from_index in unfold drop_left in ground (arith, c.nonempty n);
    used = λ n m. unfold drop_from_index in unfold drop_left in ground (arith, c.used n);
    hashed = λ n m.
        unfold drop_from_index in
        unfold drop_left in
        ground (arith, c.hashed n, no_collision n k.name, c.used n, c.used k.name);
    hash_sound = λ hh n m.
        unfold drop_from_index in
        unfold drop_left in
        ground
          (arith, c.hash_sound hh n, no_collision n k.name, c.used n, c.used k.name, c.hashed n);
  }

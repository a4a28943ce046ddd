-- ===== src/Query/Order.antt =====
-- `CanonicalSelector` of resolver/internal/query/query.go ranges over a Go map, whose order is not
-- specified: the order against the selector.
use mathlib.Core.List.{Permᴰ, Perm}
use mathlib.Core.List.Permᴰ
use mathlib.Core.List.Permᴰ.{nil, cons, swap, trans}
use mathlib.Core.Logic.{∥∥₁_elim}
use decentralized_dns.Base.{
  Bytes, List, [], ◌∷◌, Bool, true, false, not, ◌&&◌, ◌≡◌, ◌≢◌, refl, sym, subst, ℕ_discrete, arith,
  map, Bool-cases, inl, inr, ◌∙◌, ap,
}
use decentralized_dns.Base.Text.{Unicode, join}
use decentralized_dns.Query.Selector.{
  Result, ok, ◌>>=◌, >>=-eq-ok, guard, duplicate_key, Pair, has_key, canon_pair, canon_pairs,
  bytes_le, insert_sorted, sort_pairs, canonical_selector, render,
}

-- the loop without its duplicate test
abbrev pub all_canon : Unicode → List Pair → Result (List Pair)
all_canon u [] = ok []
all_canon u (p ∷ ps) = canon_pair u p >>= λ q. all_canon u ps >>= λ qs. ok (q ∷ qs)

pub all_canon-cons :
    (u : Unicode) (p q : Pair) (ps qs : List Pair)
    → canon_pair u p ≡ ok q
    → all_canon u ps ≡ ok qs
    → all_canon u (p ∷ ps) ≡ ok (q ∷ qs)
all_canon-cons u p q ps qs e f = rw (e, f)

pub all_canon-cons_inv :
    (u : Unicode) (p : Pair) (ps ys : List Pair)
    → all_canon u (p ∷ ps) ≡ ok ys
    → (q : Pair) × (qs : List Pair) × (canon_pair u p ≡ ok q)
      × (all_canon u ps ≡ ok qs)
      × (q ∷ qs ≡ ys)
all_canon-cons_inv u p ps ys h =
    let (q, e, h1) = >>=-eq-ok (canon_pair u p) _ h in
    let (qs, f, h2) = >>=-eq-ok (all_canon u ps) _ h1 in (q, qs, e, f, cc)

-- the duplicate test alone
abbrev pub fresh_keys : List Pair → List Pair → Bool
fresh_keys seen [] = true
fresh_keys seen (q ∷ qs) = not (has_key q.0 seen) && fresh_keys (q ∷ seen) qs

pub bytes_le_total : (a b : Bytes) → bytes_le a b ≡ false → bytes_le b a ≡ true
unfolding bytes_le
bytes_le_total [] b h = cc
bytes_le_total (c ∷ cs) [] h = refl
bytes_le_total (c ∷ cs) (d ∷ ds) h = ground (arith, bytes_le_total cs ds)

bytes_le_antisym : (a b : Bytes) → bytes_le a b ≡ true → bytes_le b a ≡ true → a ≡ b
unfolding bytes_le
bytes_le_antisym [] [] h k = refl
bytes_le_antisym [] (d ∷ ds) h k = cc
bytes_le_antisym (c ∷ cs) [] h k = cc
bytes_le_antisym (c ∷ cs) (d ∷ ds) h k = ground (arith, bytes_le_antisym cs ds)

bytes_le_trans : (a b c : Bytes) → bytes_le a b ≡ true → bytes_le b c ≡ true → bytes_le a c ≡ true
unfolding bytes_le
bytes_le_trans [] b c h k = refl
bytes_le_trans (x ∷ xs) [] c h k = cc
bytes_le_trans (x ∷ xs) (y ∷ ys) [] h k = cc
bytes_le_trans (x ∷ xs) (y ∷ ys) (z ∷ zs) h k = ground (arith, bytes_le_trans xs ys zs)

insert_sorted_comm :
    (x y : Pair) (l : List Pair)
    → x.0 ≢ y.0
    → insert_sorted x (insert_sorted y l) ≡ insert_sorted y (insert_sorted x l)
unfolding insert_sorted
insert_sorted_comm x y [] ne = ground (arith, bytes_le_total x.0 y.0, bytes_le_antisym x.0 y.0)
insert_sorted_comm x y (q ∷ qs) ne = ground (
  arith,
  insert_sorted_comm x y qs ne,
  bytes_le_total x.0 y.0,
  bytes_le_antisym x.0 y.0,
  bytes_le_trans x.0 y.0 q.0,
  bytes_le_trans y.0 x.0 q.0,
)

fresh_keys_same :
    (s t l : List Pair)
    → ((k : Bytes) → has_key k s ≡ has_key k t)
    → fresh_keys s l ≡ fresh_keys t l
fresh_keys_same s t [] h = refl
fresh_keys_same s t (q ∷ qs) h =
    ground (
      arith,
      h q.0,
      fresh_keys_same (q ∷ s) (q ∷ t) qs (λ k. unfold has_key in ground (arith, h k)),
    )

-- The pairs that a run of the loop collects are those without the duplicate test, with fresh keys.
pub canon_pairs-split :
    (u : Unicode) (seen ps ys : List Pair)
    → canon_pairs u seen ps ≡ ok ys
    → (all_canon u ps ≡ ok ys) × (fresh_keys seen ys ≡ true)
unfolding canon_pairs
canon_pairs-split u seen [] ys h = let e : [] ≡ ys = cc in rw (← e) (refl, refl)
canon_pairs-split u seen (p ∷ ps) ys h =
    let (q, canon, h1) = >>=-eq-ok (canon_pair u p) _ h in
    let (_, new_key, h2) = >>=-eq-ok (guard (not (has_key q.0 seen)) duplicate_key) _ h1 in
    let (rest, loop, h3) = >>=-eq-ok (canon_pairs u (q ∷ seen) ps) _ h2 in
    let ih = canon_pairs-split u (q ∷ seen) ps rest loop in ground (arith, ih.0, ih.1)

canon_pairs-join_step :
    (u : Unicode) (seen : List Pair) (p q : Pair) (ps qs : List Pair)
    → canon_pair u p ≡ ok q
    → fresh_keys seen (q ∷ qs) ≡ true
    → (fresh_keys (q ∷ seen) qs ≡ true → canon_pairs u (q ∷ seen) ps ≡ ok qs)
    → canon_pairs u seen (p ∷ ps) ≡ ok (q ∷ qs)
unfolding canon_pairs
canon_pairs-join_step u seen p q ps qs e f ih = elim (Bool-cases (has_key q.0 seen)) [
  | inl old ↦ absurd (ground arith)
  | inr new ↦ rw (canon_pairs, e, new, ih (ground arith))
]

pub canon_pairs-join :
    (u : Unicode) (seen ps ys : List Pair)
    → all_canon u ps ≡ ok ys
    → fresh_keys seen ys ≡ true
    → canon_pairs u seen ps ≡ ok ys
unfolding canon_pairs
canon_pairs-join u seen [] ys h f = cc
canon_pairs-join u seen (p ∷ ps) ys h f =
    let (q, qs, e, loop, same) = all_canon-cons_inv u p ps ys h in
    let f' : fresh_keys seen (q ∷ qs) ≡ true = subst (λ y. fresh_keys seen y ≡ true) (sym same) f in
    canon_pairs-join_step u seen p q ps qs e f' (λ g. canon_pairs-join u (q ∷ seen) ps qs loop g)
    ∙ ap ok same

-- Reordered pairs have reordered canonical pairs.
all_canon-perm :
    (u : Unicode) {ps qs : List Pair}
    → Permᴰ ps qs
    → (ys : List Pair) → all_canon u ps ≡ ok ys
    → (zs : List Pair) × (all_canon u qs ≡ ok zs) × Permᴰ ys zs
all_canon-perm u nil ys h = (ys, h, Permᴰ.refl ys)
all_canon-perm u (cons {a} {b} {l₁} {l₂} e p) ys h =
    let (q, rest, canon, loop, same) = all_canon-cons_inv u a l₁ ys h in
    let (zs, loop', p') = all_canon-perm u p rest loop in
    (
      q ∷ zs,
      all_canon-cons u b q l₂ zs (ap (canon_pair u) (sym e) ∙ canon) loop',
      subst (λ y. Permᴰ y (q ∷ zs)) same (cons refl p'),
    )
all_canon-perm u (swap {a} {b} {a'} {b'} {l} e e1) ys h =
    let (q, rest, canon, loop, same) = all_canon-cons_inv u a (b ∷ l) ys h in
    let (q', tail, canon', loop', same') = all_canon-cons_inv u b l rest loop in
    (
      q' ∷ q ∷ tail,
      all_canon-cons u a' q' (b' ∷ l) (q ∷ tail) (ap (canon_pair u) (sym e1) ∙ canon')
          (all_canon-cons u b' q l tail (ap (canon_pair u) (sym e) ∙ canon) loop'),
      subst (λ y. Permᴰ y (q' ∷ q ∷ tail)) (ap (◌∷◌ q) same' ∙ same) (swap refl refl),
    )
all_canon-perm u (trans p p1) ys h =
    let (zs, e, r) = all_canon-perm u p ys h in
    let (ws, e1, r1) = all_canon-perm u p1 zs e in (ws, e1, trans r r1)

sort_pairs-swap :
    (seen : List Pair) (a b : Pair) (l : List Pair)
    → fresh_keys seen (a ∷ b ∷ l) ≡ true
    → (sort_pairs (a ∷ b ∷ l) ≡ sort_pairs (b ∷ a ∷ l)) × (fresh_keys seen (b ∷ a ∷ l) ≡ true)
unfolding sort_pairs has_key
sort_pairs-swap seen a b l f =
    let ne : a.0 ≢ b.0 = λ e. ground arith in
    (
      insert_sorted_comm a b (sort_pairs l) ne,
      ground (arith, fresh_keys_same (b ∷ a ∷ seen) (a ∷ b ∷ seen) l (λ k. ground arith)),
    )

-- A reordering of pairs with distinct keys sorts to the same list.
pub sort_pairs-perm :
    {ys zs : List Pair}
    → Permᴰ ys zs
    → (seen : List Pair) → fresh_keys seen ys ≡ true
    → (sort_pairs ys ≡ sort_pairs zs) × (fresh_keys seen zs ≡ true)
unfolding sort_pairs
sort_pairs-perm nil seen f = (refl, f)
sort_pairs-perm (cons {a} {b} {l₁} {l₂} e p) seen f =
    let ih = sort_pairs-perm p (a ∷ seen) (ground arith) in
    ground (arith, ih.0, ih.1, ap (λ (x : Pair). insert_sorted x (sort_pairs l₁)) e)
sort_pairs-perm (swap {a} {b} {a'} {b'} {l} e e1) seen f =
    let Swapped : Pair → Pair → Type 0 = λ x y.
      (sort_pairs (a ∷ b ∷ l) ≡ sort_pairs (x ∷ y ∷ l)) × (fresh_keys seen (x ∷ y ∷ l) ≡ true) in
    subst (λ x. Swapped x b') e1 (subst (λ y. Swapped b y) e (sort_pairs-swap seen a b l f))
sort_pairs-perm (trans p p1) seen f =
    let (e, f1) = sort_pairs-perm p seen f in
    let (e1, f2) = sort_pairs-perm p1 seen f1 in (e ∙ e1, f2)

pub canonical_selector-eq :
    (u : Unicode) (ps : List Pair)
    → canonical_selector u ps
      ≡ (canon_pairs u [] ps >>= λ canon. ok (join b'&' (map render (sort_pairs canon))))
unfolding canonical_selector join
canonical_selector-eq u [] = refl
canonical_selector-eq u (p ∷ ps) = refl

Result-set : IsSet (Result Bytes)
Result-set = hlevel ℕ_discrete

canonical_selector-permᴰ :
    (u : Unicode) (ps qs : List Pair) (s : Bytes)
    → Permᴰ ps qs
    → canonical_selector u ps ≡ ok s
    → canonical_selector u qs ≡ ok s
canonical_selector-permᴰ u ps qs s p h =
    let h0 = sym (canonical_selector-eq u ps) ∙ h in
    let (ys, loop, h1) = >>=-eq-ok (canon_pairs u [] ps) _ h0 in
    let (all, new) = canon_pairs-split u [] ps ys loop in
    let (zs, all', r) = all_canon-perm u p ys all in
    let (sorted, new') = sort_pairs-perm r [] new in
    canonical_selector-eq u qs
    ∙ ap (λ (m : Result (List Pair)). m >>= λ canon. ok (join b'&' (map render (sort_pairs canon))))
        (canon_pairs-join u [] qs zs all' new')
    ∙ ap (λ (l : List Pair). ok (join b'&' (map render l))) (sym sorted)
    ∙ h1

-- In whatever order Go ranges over the pairs, `CanonicalSelector` that succeeds in one order
-- succeeds in every other order with the same selector.
pub canonical_selector-perm :
    (u : Unicode) (ps qs : List Pair) (s : Bytes)
    → Perm ps qs
    → canonical_selector u ps ≡ ok s
    → canonical_selector u qs ≡ ok s
canonical_selector-perm u ps qs s p h =
    ∥∥₁_elim p (Result-set _ _) (λ d. canonical_selector-permᴰ u ps qs s d h)

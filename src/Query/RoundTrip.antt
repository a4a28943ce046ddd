-- ===== src/Query/RoundTrip.antt =====
-- The canonical selector of resolver/internal/query/query.go read as a selector string.
use mathlib.Core.List.{Permᴰ}
use mathlib.Core.List.Permᴰ
use decentralized_dns.Base.{
  ℕ, Bytes, Bytes-discrete, List, [], ◌∷◌, ◌++◌, true, false, not, some, if_neg, ◌==◌, all_of, ◌≡◌,
  ◌≢◌, refl, sym, ap, ◌∙◌, subst, map, arith, Bool-cases, inl, inr,
}
use decentralized_dns.Base.Text.{Unicode, trim_space, to_lower, join, cut}
use decentralized_dns.Base.TextLaws.{UnicodeLaws, trim_space-ne-nil, lacks, cut-append, split-join}
use decentralized_dns.Query.Grammar.{key_ok}
use decentralized_dns.Query.Selector.{
  Result, ok, ◌>>=◌, >>=-eq-ok, Pair, has_key, canon_value, canon_pair, canon_pairs, insert_sorted,
  sort_pairs, render, canonical_selector, parse_parts, parse_pairs, parse_selector_string, bytes_le,
}
use decentralized_dns.Query.Canonical.{
  canon_value-IsFixed, trim-key, lower-key, key-lacks-eq, key-lacks-amp, key-graphic,
}
use decentralized_dns.Query.Order.{
  all_canon, all_canon-cons, all_canon-cons_inv, fresh_keys, canon_pairs-split, canon_pairs-join,
  sort_pairs-perm, canonical_selector-eq,
}

-- a pair that is its own canonical form
abbrev IsCanonical : Unicode → Pair → Type 0
IsCanonical u q = (key_ok q.0 ≡ true) × (canon_pair u q ≡ ok q) × (lacks b'&' q.1 ≡ true)

abbrev All : (Pair → Type 0) → List Pair → Type 0
All P [] = Unit
All P (q ∷ qs) = P q × All P qs

canon_pair_step :
    (u : Unicode) (k v key w : Bytes)
    → to_lower u (trim_space u k) ≡ key
    → key_ok key ≡ true
    → canon_value u key (trim_space u v) ≡ ok w
    → canon_pair u (k, v) ≡ ok (key, w)
unfolding canon_pair
canon_pair_step u k v key w e h c = rw (canon_pair, e, h, c)

canon_pair_inv :
    (u : Unicode) (k v : Bytes) (q : Pair)
    → canon_pair u (k, v) ≡ ok q
    → (w : Bytes) × (key_ok (to_lower u (trim_space u k)) ≡ true)
      × (canon_value u (to_lower u (trim_space u k)) (trim_space u v) ≡ ok w)
      × ((to_lower u (trim_space u k), w) ≡ q)
unfolding canon_pair
canon_pair_inv u k v q h = elim (Bool-cases (key_ok (to_lower u (trim_space u k)))) [
  | inl good ↦
      let h1 = rw good at h in
      let (w, e, g) =
        >>=-eq-ok (canon_value u (to_lower u (trim_space u k)) (trim_space u v)) _ h1 in
      (w, good, e, cc)
  | inr bad ↦ absurd (ground arith)
]

canon_pair-IsCanonical :
    (u : Unicode) → UnicodeLaws u → (p q : Pair) → canon_pair u p ≡ ok q → IsCanonical u q
canon_pair-IsCanonical u laws (k, v) q h =
    let (w, good, e, same) = canon_pair_inv u k v q h in
    let key = to_lower u (trim_space u k) in
    let fixed = canon_value-IsFixed u laws key v w e in
    let stable : to_lower u (trim_space u key) ≡ key =
      ap (to_lower u) (trim-key u key good) ∙ lower-key u key good in
    subst (IsCanonical u) same (good, canon_pair_step u key w key w stable good fixed.0, fixed.1)

all_canon-All :
    (u : Unicode)
    → UnicodeLaws u
    → (ps ys : List Pair) → all_canon u ps ≡ ok ys
    → All (IsCanonical u) ys
all_canon-All u laws [] ys h = let e : [] ≡ ys = cc in subst (All (IsCanonical u)) e tt
all_canon-All u laws (p ∷ ps) ys h =
    let (q, qs, e, loop, same) = all_canon-cons_inv u p ps ys h in
    subst (All (IsCanonical u)) same
      (canon_pair-IsCanonical u laws p q e, all_canon-All u laws ps qs loop)

all_canon_self : (u : Unicode) (l : List Pair) → All (IsCanonical u) l → all_canon u l ≡ ok l
all_canon_self u [] a = refl
all_canon_self u (q ∷ qs) a = all_canon-cons u q q qs qs (a.0.1) (all_canon_self u qs a.1)

insert_sorted-All :
    (P : Pair → Type 0) (q : Pair) (l : List Pair) → P q → All P l → All P (insert_sorted q l)
unfolding insert_sorted
insert_sorted-All P q [] h a = (h, a)
insert_sorted-All P q (r ∷ rs) h a = elim (Bool-cases (bytes_le q.0 r.0)) [
  | inl le ↦ rw le (h, a)
  | inr gt ↦ rw gt (a.0, insert_sorted-All P q rs h a.1)
]

sort_pairs-All : (P : Pair → Type 0) (l : List Pair) → All P l → All P (sort_pairs l)
unfolding sort_pairs
sort_pairs-All P [] a = a
sort_pairs-All P (q ∷ qs) a = insert_sorted-All P q (sort_pairs qs) a.0 (sort_pairs-All P qs a.1)

insert_sorted-Permᴰ : (q : Pair) (l : List Pair) → Permᴰ (q ∷ l) (insert_sorted q l)
unfolding insert_sorted
insert_sorted-Permᴰ q [] = Permᴰ.refl (q ∷ [])
insert_sorted-Permᴰ q (r ∷ rs) = elim (Bool-cases (bytes_le q.0 r.0)) [
  | inl le ↦ rw le (Permᴰ.refl (q ∷ r ∷ rs))
  | inr gt ↦ rw gt (Permᴰ.trans (Permᴰ.swap refl refl) (Permᴰ.cons refl (insert_sorted-Permᴰ q rs)))
]

sort_pairs-Permᴰ : (l : List Pair) → Permᴰ l (sort_pairs l)
unfolding sort_pairs
sort_pairs-Permᴰ [] = Permᴰ.refl []
sort_pairs-Permᴰ (q ∷ qs) =
    Permᴰ.trans (Permᴰ.cons refl (sort_pairs-Permᴰ qs)) (insert_sorted-Permᴰ q (sort_pairs qs))

parse_parts_step :
    (u : Unicode) (seen : List Pair) (part k v : Bytes) (parts : List Bytes) (l : List Pair)
    → cut b'=' part ≡ some (k, v)
    → to_lower u k ≡ k
    → has_key k seen ≡ false
    → parse_parts u ((k, v) ∷ seen) parts ≡ ok l
    → parse_parts u seen (part ∷ parts) ≡ ok ((k, v) ∷ l)
unfolding parse_parts
parse_parts_step u seen part k v parts l e low new rest = rw (parse_parts, e, low, new, rest)

-- Reading the rendered pairs gives the pairs.
parse_parts-render :
    (u : Unicode) (seen l : List Pair)
    → All (IsCanonical u) l
    → fresh_keys seen l ≡ true
    → parse_parts u seen (map render l) ≡ ok l
parse_parts-render u seen [] a f = unfold parse_parts in refl
parse_parts-render u seen ((k, v) ∷ l) a f =
    parse_parts_step u seen (render (k, v)) k v (map render l) l
      (cut-append b'=' k v (key-lacks-eq k a.0.0)) (lower-key u k a.0.0) (ground arith)
      (parse_parts-render u ((k, v) ∷ seen) l a.1 (ground arith))

lacks-append :
    (sep c : ℕ) (k v : Bytes)
    → lacks sep k ≡ true
    → not (c == sep) ≡ true
    → lacks sep v ≡ true
    → lacks sep (k ++ (c ∷ v)) ≡ true
lacks-append sep c [] v h n m = ground arith
lacks-append sep c (x ∷ k) v h n m = ground (arith, lacks-append sep c k v)

parts_lack :
    (u : Unicode) (l : List Pair)
    → All (IsCanonical u) l
    → all_of (lacks b'&') (map render l) ≡ true
parts_lack u [] a = refl
parts_lack u ((k, v) ∷ l) a =
    ground
      (arith, lacks-append b'&' b'=' k v (key-lacks-amp k a.0.0) refl a.0.2, parts_lack u l a.1)

join_head :
    (sep c : ℕ) (p : Bytes) (ps : List Bytes) → (r : Bytes) × (join sep ((c ∷ p) ∷ ps) ≡ c ∷ r)
unfolding join
join_head sep c p [] = (p, refl)
join_head sep c p (q ∷ qs) = (p ++ (sep ∷ join sep (q ∷ qs)), refl)

join-ne-nil :
    (u : Unicode)
    → UnicodeLaws u
    → (q : Pair) (l : List Pair) → IsCanonical u q
    → trim_space u (join b'&' (map render (q ∷ l))) ≢ []
join-ne-nil u laws (k, v) l a =
    let (c, cs, same, g) = key-graphic k a.0 in
    let (r, starts) = join_head b'&' c (cs ++ (b'=' ∷ v)) (map render l) in
    let whole : join b'&' (map render ((k, v) ∷ l)) ≡ c ∷ r =
      ap (λ (x : Bytes). join b'&' ((x ++ (b'=' ∷ v)) ∷ map render l)) same ∙ starts in
    λ e. trim_space-ne-nil u laws c r g (sym (ap (trim_space u) whole) ∙ e)

-- Reading a joined list of canonical pairs with distinct keys gives the pairs.
parse_pairs-join :
    (u : Unicode)
    → UnicodeLaws u
    → (l : List Pair) → All (IsCanonical u) l
    → fresh_keys [] l ≡ true
    → parse_pairs u (join b'&' (map render l)) ≡ ok l
unfolding parse_pairs
parse_pairs-join u laws [] a f = unfold join trim_space Bytes-discrete in refl
parse_pairs-join u laws (q ∷ l) a f =
    if_neg (Bytes-discrete _ []) (join-ne-nil u laws q l a.0) _ _
    ∙ ap (parse_parts u []) (split-join b'&' (render q) (map render l) (parts_lack u (q ∷ l) a))
    ∙ parse_parts-render u [] (q ∷ l) a f

-- What `CanonicalSelector` returns is a fixed point: read as a selector string it is split into
-- pairs with distinct keys, and those have the same canonical selector.
pub parse_pairs-canonical_selector :
    (u : Unicode)
    → UnicodeLaws u
    → (ps : List Pair) (s : Bytes) → canonical_selector u ps ≡ ok s
    → (qs : List Pair) × (parse_pairs u s ≡ ok qs) × (canonical_selector u qs ≡ ok s)
parse_pairs-canonical_selector u laws ps s h =
    let (ys, loop, h1) = >>=-eq-ok (canon_pairs u [] ps) _ (sym (canonical_selector-eq u ps) ∙ h) in
    let (all, new) = canon_pairs-split u [] ps ys loop in
    let l = sort_pairs ys in
    let good = sort_pairs-All (IsCanonical u) ys (all_canon-All u laws ps ys all) in
    let (sorted, new') = sort_pairs-perm (sort_pairs-Permᴰ ys) [] new in
    let same : join b'&' (map render l) ≡ s = cc in
    (
      l,
      subst (λ x. parse_pairs u x ≡ ok l) same (parse_pairs-join u laws l good new'),
      canonical_selector-eq u l
          ∙ ap
              (λ (m : Result (List Pair)).
                m >>= λ canon. ok (join b'&' (map render (sort_pairs canon))))
              (canon_pairs-join u [] l l (all_canon_self u l good) new')
          ∙ ap (λ (x : List Pair). ok (join b'&' (map render x))) (sym sorted)
          ∙ ap ok same,
    )

-- A selector that `CanonicalSelector` returns is its own canonical form, under the laws that are
-- assumed of trimming texts that are not ASCII.
pub parse_selector_string-canonical_selector :
    (u : Unicode)
    → UnicodeLaws u
    → (ps : List Pair) (s : Bytes) → canonical_selector u ps ≡ ok s
    → parse_selector_string u s ≡ ok s
unfolding parse_selector_string
parse_selector_string-canonical_selector u laws ps s h =
    let (qs, read, canon) = parse_pairs-canonical_selector u laws ps s h in
    ap (λ (m : Result (List Pair)). m >>= canonical_selector u) read ∙ canon

-- ===== src/Torrent/Retention.antt =====
-- The retention policy of resolver/internal/torrent/torrent.go: the eviction loop and its invariant.
use decentralized_dns.Base.{
  ◌≤◌, Bytes-discrete, List, [], ◌∷◌, ◌++◌, Bool, true, false, not, ◌&&◌, ◌||◌, ltb, ◌==◌,
  if◌then◌else◌, ite, length, ◌≡◌, refl, sym, ap, subst, ◌∙◌, arith, Bool-cases, inl, inr,
}
use decentralized_dns.Torrent.Engine.{Hash, assign, Engine, max_retained_torrents, evict, enlist}

-- whether a list holds a hash
unfoldable pub lists : List Hash → Hash → Bool
lists [] h = false
lists (j ∷ l) h = ite (Bytes-discrete h j) true (lists l h)

unfoldable pub distinct : List Hash → Bool
unfolding lists
distinct [] = true
distinct (j ∷ l) = not (lists l j) && distinct l

-- Everything that is retained is pinned, and retained once.
pub record IsSound (e : Engine) (l : List Hash) : Type 0 where
  pub once : distinct l ≡ true
  pub held : (h : Hash) → lists l h ≡ true → e.pinned h ≡ true

pub record IsValid (e : Engine) : Type 0 where
  pub sound : IsSound e e.retained
  pub bounded : length e.retained ≤ max_retained_torrents

unfoldable pub unpinned : Engine → List Hash → Hash → Engine
unpinned e rest old = record {
  pinned = assign e.pinned old false;
  retained = rest;
  in_use = e.in_use;
}

unpinned-IsSound :
    (e : Engine) (old : Hash) (rest : List Hash)
    → IsSound e (old ∷ rest)
    → IsSound (unpinned e rest old) rest
unfolding unpinned distinct lists
unpinned-IsSound e old rest s = record {
  once = ground (arith, s.once);
  held = λ h m. ground (arith, s.once, s.held h);
}

-- What a run of the eviction loop leaves.
pub record Evicted (e : Engine) (l : List Hash) (e1 : Engine) (drops : List Hash) : Type 0 where
  pub valid : IsValid e1
  pub readers : e1.in_use ≡ e.in_use
  pub dropped : (h : Hash) → lists drops h ≡ true → (e1.pinned h ≡ false) × (e.in_use h ≡ 0)
  pub others : (h : Hash) → lists l h ≡ false → e1.pinned h ≡ e.pinned h
  pub fewer : (h : Hash) → lists l h ≡ false → lists e1.retained h ≡ false

-- one round of the loop, on a list that is too long
unfoldable pub one_round : Engine → Hash → List Hash → Engine × List Hash
unfolding evict unpinned
one_round e old rest =
    let next = evict (unpinned e rest old) rest in
    (next.0, if e.in_use old == 0 then old ∷ next.1 else next.1)

pub evict_long :
    (e : Engine) (old : Hash) (rest : List Hash)
    → ltb max_retained_torrents (length (old ∷ rest)) ≡ true
    → evict e (old ∷ rest) ≡ one_round e old rest
unfolding evict one_round unpinned
evict_long e old rest h = rw h refl

pub evict_short :
    (e : Engine) (old : Hash) (rest : List Hash)
    → ltb max_retained_torrents (length (old ∷ rest)) ≡ false
    → evict e (old ∷ rest)
      ≡ (record { pinned = e.pinned; retained = old ∷ rest; in_use = e.in_use }, [])
unfolding evict
evict_short e old rest h = rw h refl

one_round-dropped :
    (e : Engine) (old : Hash) (rest : List Hash)
    → (evict (unpinned e rest old) rest).0.pinned old ≡ false
    → ((h : Hash)
        → lists (evict (unpinned e rest old) rest).1 h ≡ true
        → ((evict (unpinned e rest old) rest).0.pinned h ≡ false) × (e.in_use h ≡ 0))
    → (h : Hash) → lists (one_round e old rest).1 h ≡ true
    → ((one_round e old rest).0.pinned h ≡ false) × (e.in_use h ≡ 0)
unfolding one_round lists
one_round-dropped e old rest gone next h m =
    elim (Bool-cases (lists (evict (unpinned e rest old) rest).1 h)) [
      | inl later ↦ next h later
      | inr not_later ↦
          let same : h ≡ old = ground arith in
          (ap (evict (unpinned e rest old) rest).0.pinned same ∙ gone, ground (arith, same))
    ]

one_round-Evicted :
    (e : Engine) (old : Hash) (rest : List Hash)
    → IsSound e (old ∷ rest)
    → Evicted
        (unpinned e rest old)
        rest
        (evict (unpinned e rest old) rest).0
        (evict (unpinned e rest old) rest).1
    → Evicted e (old ∷ rest) (one_round e old rest).0 (one_round e old rest).1
unfolding one_round lists
one_round-Evicted e old rest s ih =
    let gone : lists rest old ≡ false = unfold distinct in ground (arith, s.once) in
    let unpinned_old : (evict (unpinned e rest old) rest).0.pinned old ≡ false =
      ih.others old gone ∙ (unfold unpinned in ground arith) in
    record {
      valid = ih.valid;
      readers = ih.readers ∙ (unfold unpinned in refl);
      dropped = λ h m. one_round-dropped e old rest unpinned_old ih.dropped h m;
      others = λ h m. ih.others h (ground arith) ∙ (unfold unpinned in ground arith);
      fewer = λ h m. ih.fewer h (ground arith);
    }

pub evict-Evicted :
    (e : Engine) (l : List Hash) → IsSound e l → Evicted e l (evict e l).0 (evict e l).1
unfolding evict lists
evict-Evicted e [] s = record {
  valid = record {
    sound = record { once = s.once; held = λ h m. s.held h m };
    bounded = omega arith;
  };
  readers = refl;
  dropped = λ h m. cc;
  others = λ h m. refl;
  fewer = λ h m. refl;
}
evict-Evicted e (old ∷ rest) s =
    elim (Bool-cases (ltb max_retained_torrents (length (old ∷ rest)))) [
      | inl long ↦
          subst (λ (r : Engine × List Hash). Evicted e (old ∷ rest) r.0 r.1)
            (sym (evict_long e old rest long))
            (one_round-Evicted e old rest s
              (evict-Evicted (unpinned e rest old) rest (unpinned-IsSound e old rest s)))
      | inr short ↦
          subst (λ (r : Engine × List Hash). Evicted e (old ∷ rest) r.0 r.1)
            (sym (evict_short e old rest short))
            (record {
              valid = record {
                sound = record { once = s.once; held = s.held };
                bounded = ground arith;
              };
              readers = refl;
              dropped = λ h m. cc;
              others = λ h m. refl;
              fewer = λ h m. m;
            })
    ]

pub lists-append_one :
    (l : List Hash) (j h : Hash)
    → lists (l ++ (j ∷ [])) h ≡ lists l h || ite (Bytes-discrete h j) true false
unfolding lists
lists-append_one [] j h = ground arith
lists-append_one (i ∷ l) j h = ground (arith, lists-append_one l j h)

distinct-append_one :
    (l : List Hash) (j : Hash)
    → distinct l ≡ true
    → lists l j ≡ false
    → distinct (l ++ (j ∷ [])) ≡ true
unfolding distinct lists
distinct-append_one [] j d n = refl
distinct-append_one (i ∷ l) j d n = ground (arith, distinct-append_one l j, lists-append_one l j i)

-- the state of retain after its first branch, for a hash that was not pinned
abbrev pub enlisted : Engine → Hash → Engine
enlisted e ih = record {
  pinned = assign e.pinned ih true;
  retained = e.retained ++ (ih ∷ []);
  in_use = e.in_use;
}

pub enlist_pinned : (e : Engine) (ih : Hash) → e.pinned ih ≡ true → enlist e ih ≡ e
unfolding enlist
enlist_pinned e ih h = rw h refl

pub enlist_new : (e : Engine) (ih : Hash) → e.pinned ih ≡ false → enlist e ih ≡ enlisted e ih
unfolding enlist
enlist_new e ih h = rw h refl

pub enlisted-IsSound :
    (e : Engine) (ih : Hash)
    → IsSound e e.retained
    → e.pinned ih ≡ false
    → IsSound (enlisted e ih) (e.retained ++ (ih ∷ []))
enlisted-IsSound e ih s p =
    let absent : lists e.retained ih ≡ false = elim (Bool-cases (lists e.retained ih)) [
      | inl m ↦ absurd (ground (arith, s.held ih m))
      | inr m ↦ m
    ] in
    record {
      once = distinct-append_one e.retained ih s.once absent;
      held = λ h m. ground (arith, lists-append_one e.retained ih h, s.held h);
    }

pub enlist-IsSound :
    (e : Engine) (ih : Hash) → IsSound e e.retained → IsSound (enlist e ih) (enlist e ih).retained
enlist-IsSound e ih s = elim (Bool-cases (e.pinned ih)) [
  | inl p ↦ subst (λ (x : Engine). IsSound x x.retained) (sym (enlist_pinned e ih p)) s
  | inr p ↦
      subst (λ (x : Engine). IsSound x x.retained) (sym (enlist_new e ih p))
        (enlisted-IsSound e ih s p)
]

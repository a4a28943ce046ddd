-- ===== src/Torrent/Safety.antt =====
-- Sequences of critical sections of resolver/internal/torrent/torrent.go.
use decentralized_dns.Base.{
  ◌-◌, List, [], ◌∷◌, true, false, ◌≡◌, refl, sym, ap, ◌∙◌, arith, Bool-cases, inl, inr, subst,
}
use decentralized_dns.Torrent.Engine.{
  Hash, assign, Engine, new, pin, acquire, release, enlist, retain, Call, pinning, acquiring,
  releasing, retaining, perform, run,
}
use decentralized_dns.Torrent.Retention.{
  lists, distinct, IsValid, Evicted, evict-Evicted, enlist-IsSound, enlist_pinned, enlist_new,
  lists-append_one,
}

pub retain-Evicted :
    (e : Engine) (ih : Hash)
    → IsValid e
    → Evicted (enlist e ih) (enlist e ih).retained (retain e ih).0 (retain e ih).1
unfolding retain
retain-Evicted e ih v =
    evict-Evicted (enlist e ih) (enlist e ih).retained (enlist-IsSound e ih v.sound)

pub new-IsValid : IsValid new
new-IsValid = record {
  sound = record { once = unfold distinct in refl; held = λ h m. unfold lists in cc };
  bounded = omega arith;
}

pub perform-IsValid : (e : Engine) (c : Call) → IsValid e → IsValid (perform e c).0
unfolding perform pin acquire release assign
perform-IsValid e (pinning ih) v = record {
  sound = record { once = v.sound.once; held = λ h m. ground (arith, v.sound.held h m) };
  bounded = v.bounded;
}
perform-IsValid e (acquiring ih) v = record {
  sound = record { once = v.sound.once; held = v.sound.held };
  bounded = v.bounded;
}
perform-IsValid e (releasing ih) v = record {
  sound = record { once = v.sound.once; held = v.sound.held };
  bounded = v.bounded;
}
perform-IsValid e (retaining ih) v = (retain-Evicted e ih v).valid

run-IsValid_from : (e : Engine) (cs : List Call) → IsValid e → IsValid (run e cs)
unfolding run
run-IsValid_from e [] v = v
run-IsValid_from e (c ∷ cs) v = run-IsValid_from (perform e c).0 cs (perform-IsValid e c v)

-- After any sequence of critical sections of a new engine, at most `max_retained_torrents` torrents
-- are retained, each of them once, and every retained torrent is pinned.
pub run-IsValid : (cs : List Call) → IsValid (run new cs)
run-IsValid cs = run-IsValid_from new cs new-IsValid

pub enlist-in_use : (e : Engine) (ih : Hash) → (enlist e ih).in_use ≡ e.in_use
enlist-in_use e ih = elim (Bool-cases (e.pinned ih)) [
  | inl p ↦ ap (λ (x : Engine). x.in_use) (enlist_pinned e ih p)
  | inr p ↦ ap (λ (x : Engine). x.in_use) (enlist_new e ih p)
]

release-dropped :
    (e : Engine) (ih h : Hash)
    → lists (perform e (releasing ih)).1 h ≡ true
    → (e.pinned h ≡ false) × (assign e.in_use ih (e.in_use ih - 1) h ≡ 0)
unfolding perform release lists
release-dropped e ih h m =
    let same : h ≡ ih = ground arith in
    let free : e.pinned ih ≡ false = ground arith in
    let idle : e.in_use ih - 1 ≡ 0 = ground arith in
    (ap e.pinned same ∙ free, ground (arith, same, idle))

-- What a critical section of a valid engine decides to drop is, in the state that it leaves, neither
-- pinned nor being read.
pub perform-dropped :
    (e : Engine) (c : Call) (h : Hash)
    → IsValid e
    → lists (perform e c).1 h ≡ true
    → ((perform e c).0.pinned h ≡ false) × ((perform e c).0.in_use h ≡ 0)
unfolding perform
perform-dropped e (pinning ih) h v m = unfold lists in cc
perform-dropped e (acquiring ih) h v m = unfold lists in cc
perform-dropped e (releasing ih) h v m = release-dropped e ih h m
perform-dropped e (retaining ih) h v m =
    let r = retain-Evicted e ih v in
    let (free, idle) = r.dropped h m in (free, ap (λ u. u h) r.readers ∙ idle)

enlist-kept :
    (e : Engine) (ih h : Hash)
    → e.pinned h ≡ true
    → lists e.retained h ≡ false
    → ((enlist e ih).pinned h ≡ true) × (lists (enlist e ih).retained h ≡ false)
enlist-kept e ih h p l = elim (Bool-cases (e.pinned ih)) [
  | inl q ↦
      subst (λ (x : Engine). (x.pinned h ≡ true) × (lists x.retained h ≡ false))
        (sym (enlist_pinned e ih q)) (p, l)
  | inr q ↦
      subst (λ (x : Engine). (x.pinned h ≡ true) × (lists x.retained h ≡ false))
        (sym (enlist_new e ih q)) (ground arith, ground (arith, lists-append_one e.retained ih h))
]

perform-pinned :
    (e : Engine) (c : Call) (h : Hash)
    → IsValid e
    → e.pinned h ≡ true
    → lists e.retained h ≡ false
    → ((perform e c).0.pinned h ≡ true) × (lists (perform e c).0.retained h ≡ false)
unfolding perform pin acquire release
perform-pinned e (pinning ih) h v p l = (ground arith, l)
perform-pinned e (acquiring ih) h v p l = (p, l)
perform-pinned e (releasing ih) h v p l = (p, l)
perform-pinned e (retaining ih) h v p l =
    let r = retain-Evicted e ih v in
    let (p1, l1) = enlist-kept e ih h p l in (r.others h l1 ∙ p1, r.fewer h l1)

-- In a valid engine a torrent that is pinned and not in the retained list, as one that is seeded and
-- was never fetched, stays pinned and out of that list through any sequence of critical sections.
pub run-pinned :
    (e : Engine) (cs : List Call) (h : Hash)
    → IsValid e
    → e.pinned h ≡ true
    → lists e.retained h ≡ false
    → ((run e cs).pinned h ≡ true) × (lists (run e cs).retained h ≡ false)
unfolding run
run-pinned e [] h v p l = (p, l)
run-pinned e (c ∷ cs) h v p l =
    let (p1, l1) = perform-pinned e c h v p l in
    run-pinned (perform e c).0 cs h (perform-IsValid e c v) p1 l1

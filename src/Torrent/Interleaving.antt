-- ===== src/Torrent/Interleaving.antt =====
-- The counts of resolver/internal/torrent/torrent.go while Fetches and seedings interleave.
use decentralized_dns.Base.{
  ℕ, ◌+◌, ◌≤◌, List, [], ◌∷◌, ◌++◌, true, false, ◌≡◌, refl, sym, ap, ◌∙◌, arith,
}
use decentralized_dns.Torrent.Engine.{
  Hash, Engine, new, pin, acquire, release, enlist, retain, Call, releasing, perform, run,
}
use decentralized_dns.Torrent.Fetch.{Hexes}
use decentralized_dns.Torrent.Retention.{lists, IsValid, evict-Evicted, enlist-IsSound}
use decentralized_dns.Torrent.Safety.{
  enlist-in_use, new-IsValid, perform-IsValid, run-IsValid, perform-dropped,
}
use decentralized_dns.Torrent.Threads.{
  Request, Thread, threads, Turn, here, there, Schedule, rest, turn, reads, readers, IsThread, over,
  seeds, fails, succeeds, keeps, leaves, AreThreads, one_more, threads-AreThreads, readers_fresh,
}

retain-in_use : (e : Engine) (ih : Hash) → IsValid e → (retain e ih).0.in_use ≡ e.in_use
unfolding retain
retain-in_use e ih v =
    (evict-Evicted (enlist e ih) (enlist e ih).retained (enlist-IsSound e ih v.sound)).readers
    ∙ enlist-in_use e ih

IsThread-next : (c : Call) (t : Thread) → IsThread (c ∷ t) → IsThread t
IsThread-next c t (seeds ih) = over
IsThread-next c t (fails ih) = leaves ih
IsThread-next c t (succeeds ih) = keeps ih
IsThread-next c t (keeps ih) = leaves ih
IsThread-next c t (leaves ih) = over

-- a critical section changes the count of a torrent as it changes whether its thread reads it
perform-reads :
    (e : Engine) (c : Call) (t : Thread) (h : Hash)
    → IsValid e
    → IsThread (c ∷ t)
    → reads h (c ∷ t) ≤ e.in_use h
    → (perform e c).0.in_use h + reads h (c ∷ t) ≡ e.in_use h + reads h t
unfolding perform pin acquire release reads
perform-reads e c t h v (seeds ih) n = refl
perform-reads e c t h v (fails ih) n = ground arith
perform-reads e c t h v (succeeds ih) n = ground arith
perform-reads e c t h v (keeps ih) n =
    ap (λ (m : Hash → ℕ). m h + reads h (releasing ih ∷ [])) (retain-in_use e ih v)
perform-reads e c t h v (leaves ih) n = ground arith

Turn-AreThreads : (ts us : List Thread) (c : Call) → Turn ts c us → AreThreads ts → AreThreads us
Turn-AreThreads ts us c (here d t rs) (one_more u qs a all) =
    one_more t rs (IsThread-next d t a) all
Turn-AreThreads ts us c (there t d rs qs k) (one_more u ps a all) =
    one_more t qs a (Turn-AreThreads rs qs d k all)

Turn-readers :
    (e : Engine) (ts us : List Thread) (c : Call) (h : Hash)
    → IsValid e
    → Turn ts c us
    → AreThreads ts
    → readers h ts ≤ e.in_use h
    → (perform e c).0.in_use h + readers h ts ≡ e.in_use h + readers h us
unfolding readers
Turn-readers e ts us c h v (here d t rs) (one_more u qs a all) n =
    ground (arith, perform-reads e d t h v a (omega arith))
Turn-readers e ts us c h v (there t d rs qs k) (one_more u ps a all) n =
    ground (arith, Turn-readers e rs qs d h v k all (omega arith))

Schedule-readers :
    (e : Engine) (ts left : List Thread) (cs : List Call)
    → IsValid e
    → AreThreads ts
    → ((h : Hash) → e.in_use h ≡ readers h ts)
    → Schedule ts cs left
    → (h : Hash) → (run e cs).in_use h ≡ readers h left
unfolding run
Schedule-readers e ts left cs v all n (rest us) h = n h
Schedule-readers e ts left cs v all n (turn ss us c ds kept k s) h =
    Schedule-readers (perform e c).0 us kept ds (perform-IsValid e c v)
      (Turn-AreThreads ss us c k all)
      (λ j.
        let same = n j in let moved = Turn-readers e ss us c j v k all (omega arith) in omega arith)
      s h

run-append_one :
    (e : Engine) (cs : List Call) (c : Call) → run e (cs ++ (c ∷ [])) ≡ (perform (run e cs) c).0
unfolding run
run-append_one e [] c = refl
run-append_one e (d ∷ cs) c = run-append_one (perform e d).0 cs c

-- Fetches and seedings that a new engine runs at the same time keep exact counts, however their
-- critical sections interleave: at each point the count of a torrent is the number of Fetches between
-- their acquire and their release of it. What the last critical section decides to drop is, at that
-- point, not pinned and read by no Fetch.
pub run-Schedule :
    (x : Hexes) (qs : List Request) (cs : List Call) (c : Call) (left : List Thread)
    → Schedule (threads x qs) (cs ++ (c ∷ [])) left
    → (h : Hash)
    → ((run new (cs ++ (c ∷ []))).in_use h ≡ readers h left)
      × (lists (perform (run new cs) c).1 h ≡ true
          → ((run new (cs ++ (c ∷ []))).pinned h ≡ false) × (readers h left ≡ 0))
run-Schedule x qs cs c left s h =
    let counted : (run new (cs ++ (c ∷ []))).in_use h ≡ readers h left =
      Schedule-readers new (threads x qs) left (cs ++ (c ∷ [])) new-IsValid
        (threads-AreThreads x qs) (λ j. sym (readers_fresh x qs j)) s h in
    let last = run-append_one new cs c in
    (
      counted,
      λ m.
          let (free, idle) = perform-dropped (run new cs) c h (run-IsValid cs) m in
          (
            ap (λ (e : Engine). e.pinned h) last ∙ free,
            sym counted ∙ ap (λ (e : Engine). e.in_use h) last ∙ idle,
          ),
    )

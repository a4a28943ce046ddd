-- ===== src/Torrent/Threads.antt =====
-- Fetch and Seed of resolver/internal/torrent/torrent.go as threads: the mutex makes each critical
-- section one step, and those of different calls interleave in any order.
use decentralized_dns.Base.{
  ℕ, ◌+◌, Bytes, Bytes-discrete, List, [], ◌∷◌, ◌==◌, ite, length, ◌≡◌, refl, arith, inl, inr,
  Bool-cases, Option-cases,
}
use decentralized_dns.Torrent.Engine.{Hash, Call, pinning, acquiring, releasing, retaining}
use decentralized_dns.Torrent.Fetch.{Hexes, Swarm, judge, is_content, fetch_hash, fetch}

-- the calls of the engine that change its bookkeeping: a Fetch, or a Seed that got its metadata
pub data Request : Type 0 where
  fetching : Bytes → Bytes → Swarm → Request
  seeding : Hash → Request

-- the critical sections that a call has still to run
abbrev pub Thread : Type 0
Thread = List Call

unfoldable pub thread : Hexes → Request → Thread
thread x (fetching info_hash_hex expected_sha_hex swarm) =
    (fetch x info_hash_hex expected_sha_hex swarm).0
thread x (seeding ih) = pinning ih ∷ []

unfoldable pub threads : Hexes → List Request → List Thread
unfolding thread
threads x [] = []
threads x (q ∷ qs) = thread x q ∷ threads x qs

-- one of the threads runs its next critical section
pub data Turn : List Thread → Call → List Thread → Type 0 where
  here : (c : Call) (t : Thread) (ts : List Thread) → Turn ((c ∷ t) ∷ ts) c (t ∷ ts)
  there : (t : Thread) (c : Call) (ts us : List Thread) → Turn ts c us → Turn (t ∷ ts) c (t ∷ us)

-- the threads run critical sections, in an order that they do not choose, until what is left of them
pub data Schedule : List Thread → List Call → List Thread → Type 0 where
  rest : (ts : List Thread) → Schedule ts [] ts
  turn :
      (ts us : List Thread) (c : Call) (cs : List Call) (left : List Thread)
      → Turn ts c us
      → Schedule us cs left
      → Schedule ts (c ∷ cs) left

-- 1 for a thread that is between its acquire and its release of a torrent, else 0
unfoldable pub reads : Hash → Thread → ℕ
reads h [] = 0
reads h (pinning ih ∷ t) = 0
reads h (acquiring ih ∷ t) = 0
reads h (retaining ih ∷ t) = reads h t
reads h (releasing ih ∷ t) = ite (Bytes-discrete h ih) 1 0

unfoldable pub readers : Hash → List Thread → ℕ
unfolding reads
readers h [] = 0
readers h (t ∷ ts) = reads h t + readers h ts

-- what is left of a Fetch or of a seeding
pub data IsThread : Thread → Type 0 where
  over : IsThread []
  seeds : (ih : Hash) → IsThread (pinning ih ∷ [])
  fails : (ih : Hash) → IsThread (acquiring ih ∷ releasing ih ∷ [])
  succeeds : (ih : Hash) → IsThread (acquiring ih ∷ retaining ih ∷ releasing ih ∷ [])
  keeps : (ih : Hash) → IsThread (retaining ih ∷ releasing ih ∷ [])
  leaves : (ih : Hash) → IsThread (releasing ih ∷ [])

pub data AreThreads : List Thread → Type 0 where
  no_threads : AreThreads []
  one_more : (t : Thread) (ts : List Thread) → IsThread t → AreThreads ts → AreThreads (t ∷ ts)

-- what a Fetch or a seeding has to run at its start
data IsFresh : Thread → Type 0 where
  vacuous : IsFresh []
  seeded : (ih : Hash) → IsFresh (pinning ih ∷ [])
  rejected : (ih : Hash) → IsFresh (acquiring ih ∷ releasing ih ∷ [])
  verified : (ih : Hash) → IsFresh (acquiring ih ∷ retaining ih ∷ releasing ih ∷ [])

IsFresh-IsThread : (t : Thread) → IsFresh t → IsThread t
IsFresh-IsThread t vacuous = over
IsFresh-IsThread t (seeded ih) = seeds ih
IsFresh-IsThread t (rejected ih) = fails ih
IsFresh-IsThread t (verified ih) = succeeds ih

reads_fresh : (h : Hash) (t : Thread) → IsFresh t → reads h t ≡ 0
unfolding reads
reads_fresh h t vacuous = refl
reads_fresh h t (seeded ih) = refl
reads_fresh h t (rejected ih) = refl
reads_fresh h t (verified ih) = refl

fetch_hash-IsFresh :
    (x : Hexes) (ih : Hash) (expected : Bytes) (swarm : Swarm)
    → IsFresh (fetch_hash x ih expected swarm).0
unfolding fetch_hash
fetch_hash-IsFresh x ih expected swarm = elim (Bool-cases (is_content (judge x expected swarm))) [
  | inl kept ↦ rw (fetch_hash, kept) (verified ih)
  | inr broken ↦ rw (fetch_hash, broken) (rejected ih)
]

fetch-IsFresh :
    (x : Hexes) (info_hash_hex expected_sha_hex : Bytes) (swarm : Swarm)
    → IsFresh (fetch x info_hash_hex expected_sha_hex swarm).0
unfolding fetch
fetch-IsFresh x info_hash_hex expected_sha_hex swarm =
    elim (Option-cases (x.decode_info_hash info_hash_hex)) [
      | inl p ↦ rw (fetch, p) vacuous
      | inr (ih, p) ↦ elim (Option-cases (x.decode_sha expected_sha_hex)) [
        | inl q ↦ rw (fetch, p, q) vacuous
        | inr (expected, q) ↦ elim (Bool-cases (length expected == 32)) [
          | inl sized ↦ rw (fetch, p, q, sized) (fetch_hash-IsFresh x ih expected swarm)
          | inr short ↦ rw (fetch, p, q, short) vacuous
        ]
      ]
    ]

thread-IsFresh : (x : Hexes) (q : Request) → IsFresh (thread x q)
unfolding thread
thread-IsFresh x (fetching info_hash_hex expected_sha_hex swarm) =
    fetch-IsFresh x info_hash_hex expected_sha_hex swarm
thread-IsFresh x (seeding ih) = seeded ih

pub threads-AreThreads : (x : Hexes) (qs : List Request) → AreThreads (threads x qs)
unfolding threads
threads-AreThreads x [] = no_threads
threads-AreThreads x (q ∷ qs) =
    one_more _ _ (IsFresh-IsThread _ (thread-IsFresh x q)) (threads-AreThreads x qs)

pub readers_fresh : (x : Hexes) (qs : List Request) (h : Hash) → readers h (threads x qs) ≡ 0
unfolding threads readers
readers_fresh x [] h = refl
readers_fresh x (q ∷ qs) h =
    ground (arith, reads_fresh h (thread x q) (thread-IsFresh x q), readers_fresh x qs h)

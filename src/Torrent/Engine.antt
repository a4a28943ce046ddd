-- ===== src/Torrent/Engine.antt =====
-- The bookkeeping of resolver/internal/torrent/torrent.go: which torrents are pinned, retained and
-- being read, and which of them the client is told to drop. One operation is one critical section;
-- what it decides to drop is returned, since the drop itself runs after the lock is released.
use decentralized_dns.Base.{
  ℕ, suc, ◌-◌, Bytes, Bytes-discrete, List, [], ◌∷◌, ◌++◌, Bool, true, false, not, ◌&&◌, ltb, ◌==◌,
  if◌then◌else◌, ite, length,
}

-- metainfo.Hash
abbrev pub Hash : Type 0
Hash = Bytes

-- A Go map to bool or int with its zero value for a missing key, so that a deleted key and a zero are
-- the same.
abbrev pub assign {ℓ} : {A : Type ℓ} → (Hash → A) → Hash → A → Hash → A
assign m k v j = ite (Bytes-discrete j k) v (m j)

pub record Engine : Type 0 where
  pub pinned : Hash → Bool
  pub retained : List Hash
  pub in_use : Hash → ℕ

abbrev pub max_retained_torrents : ℕ
max_retained_torrents = 256

-- the bookkeeping that New starts with
abbrev pub new : Engine
new = record { pinned = λ h. false; retained = []; in_use = λ h. 0 }

unfoldable pub pin : Engine → Hash → Engine
pin e ih = record { pinned = assign e.pinned ih true; retained = e.retained; in_use = e.in_use }

unfoldable pub acquire : Engine → Hash → Engine
acquire e ih = record {
  pinned = e.pinned;
  retained = e.retained;
  in_use = assign e.in_use ih (suc (e.in_use ih));
}

-- `inUse[ih]--` guarded by `inUse[ih] > 0` is the subtraction that stops at 0.
unfoldable pub release : Engine → Hash → Engine × Bool
release e ih =
    let left = e.in_use ih - 1 in
    (
      record { pinned = e.pinned; retained = e.retained; in_use = assign e.in_use ih left },
      (left == 0) && not (e.pinned ih),
    )

-- The loop `for len(e.retained) > maxRetainedTorrents`, on the retained list.
unfoldable pub evict : Engine → List Hash → Engine × List Hash
evict e [] = (record { pinned = e.pinned; retained = []; in_use = e.in_use }, [])
evict e (old ∷ rest) =
    let next =
      evict (record { pinned = assign e.pinned old false; retained = rest; in_use = e.in_use })
        rest in
    if ltb max_retained_torrents (length (old ∷ rest))
    then (next.0, if e.in_use old == 0 then old ∷ next.1 else next.1)
    else (record { pinned = e.pinned; retained = old ∷ rest; in_use = e.in_use }, [])

-- the first branch of retain
unfoldable pub enlist : Engine → Hash → Engine
enlist e ih = if e.pinned ih then e else record {
  pinned = assign e.pinned ih true;
  retained = e.retained ++ (ih ∷ []);
  in_use = e.in_use;
}

unfoldable pub retain : Engine → Hash → Engine × List Hash
unfolding enlist evict
retain e ih = let e1 = enlist e ih in evict e1 e1.retained

-- One critical section of the engine.
pub data Call : Type 0 where
  pinning acquiring releasing retaining : Hash → Call

-- A critical section, with what is to be dropped after it.
unfoldable pub perform : Engine → Call → Engine × List Hash
unfolding pin acquire release retain
perform e (pinning ih) = (pin e ih, [])
perform e (acquiring ih) = (acquire e ih, [])
perform e (releasing ih) = let (e1, drops) = release e ih in (e1, if drops then ih ∷ [] else [])
perform e (retaining ih) = retain e ih

unfoldable pub run : Engine → List Call → Engine
unfolding perform
run e [] = e
run e (c ∷ cs) = run (perform e c).0 cs

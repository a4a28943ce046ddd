-- ===== src/Torrent/Fetch.antt =====
-- Fetch of resolver/internal/torrent/torrent.go: the checks of what the swarm delivers, and
-- the critical sections around them.
use decentralized_dns.Base.{
  ℕ, ◌*◌, ◌^◌, Bytes, Bytes-discrete, List, [], ◌∷◌, Bool, true, false, Option, none, some, ltb,
  ◌==◌, ite, if◌then◌else◌, length, ◌≡◌, sym, ap, ◌∙◌, inl, inr, arith, Option-cases, ℕ_discrete,
}
use decentralized_dns.Torrent.Engine.{Hash, Call, acquiring, releasing, retaining}

-- 256 << 20
abbrev pub max_fetch_bytes : ℕ
max_fetch_bytes = 256 * 2 ^ 20

pub data FetchError : Type 0 where
  bad_info_hash bad_sha256 no_metadata too_large : FetchError
  download_stopped download_failed hash_mismatch : FetchError

-- What the swarm does: it announces no torrent before the context ends, or one of some length whose
-- download is stopped by the end of the context, fails, or delivers bytes.
pub data Delivery : Type 0 where
  stopped broken : Delivery
  delivered : Bytes → Delivery

pub data Swarm : Type 0 where
  silent : Swarm
  announced : ℕ → Delivery → Swarm

-- SHA-256, and the readings of hexadecimal texts (hex.DecodeString, metainfo.Hash.FromHexString)
pub record Hexes : Type 0 where
  pub sha256 : Bytes → Bytes
  pub decode_sha : Bytes → Option Bytes
  pub decode_info_hash : Bytes → Option Hash

pub data Fetched : Type 0 where
  content : Bytes → Fetched
  failed : FetchError → Fetched

-- the comparison with the expected hash
unfoldable pub deliver : Hexes → Bytes → Delivery → Fetched
deliver x expected stopped = failed download_stopped
deliver x expected broken = failed download_failed
deliver x expected (delivered body) =
    ite (Bytes-discrete (x.sha256 body) expected) (content body) (failed hash_mismatch)

unfoldable pub judge : Hexes → Bytes → Swarm → Fetched
unfolding deliver
judge x expected silent = failed no_metadata
judge x expected (announced n d) =
    if ltb max_fetch_bytes n then failed too_large else deliver x expected d

abbrev pub is_content : Fetched → Bool
is_content (content body) = true
is_content (failed e) = false

-- Fetch after its arguments are read: its critical sections in their order, and its result. It
-- acquires the torrent before it waits for the swarm; the deferred call retains the torrent of a
-- verified resource and releases the reader. Other critical sections may run between these.
unfoldable pub fetch_hash : Hexes → Hash → Bytes → Swarm → List Call × Fetched
unfolding judge
fetch_hash x ih expected swarm =
    let outcome = judge x expected swarm in
    let deferred = releasing ih ∷ [] in
    (acquiring ih ∷ (if is_content outcome then retaining ih ∷ deferred else deferred), outcome)

unfoldable pub fetch : Hexes → Bytes → Bytes → Swarm → List Call × Fetched
unfolding fetch_hash
fetch x info_hash_hex expected_sha_hex swarm = elim (x.decode_info_hash info_hash_hex) [
  | none ↦ ([], failed bad_info_hash)
  | some ih ↦ elim (x.decode_sha expected_sha_hex) [
    | none ↦ ([], failed bad_sha256)
    | some expected ↦
        if length expected == 32 then fetch_hash x ih expected swarm else ([], failed bad_sha256)
  ]
]

judge-content :
    (x : Hexes) (expected body : Bytes) (swarm : Swarm)
    → judge x expected swarm ≡ content body
    → x.sha256 body ≡ expected
unfolding judge deliver
judge-content x expected body silent h = cc
judge-content x expected body (announced n stopped) h = absurd (ground arith)
judge-content x expected body (announced n broken) h = absurd (ground arith)
judge-content x expected body (announced n (delivered b)) h =
    let right : x.sha256 b ≡ expected = ground arith in
    let same : b ≡ body = ground arith in ap x.sha256 (sym same) ∙ right

-- The content that `Fetch` returns has the SHA-256 that the expected text decodes to, of 32 bytes.
pub fetch-sha256 :
    (x : Hexes) (info_hash_hex expected_sha_hex body : Bytes) (swarm : Swarm)
    → (fetch x info_hash_hex expected_sha_hex swarm).1 ≡ content body
    → (x.decode_sha expected_sha_hex ≡ some (x.sha256 body)) × (length (x.sha256 body) ≡ 32)
unfolding fetch fetch_hash
fetch-sha256 x info_hash_hex expected_sha_hex body swarm h =
    elim (Option-cases (x.decode_info_hash info_hash_hex)) [
      | inl q ↦ absurd (ground (arith, q))
      | inr (ih, q) ↦ elim (Option-cases (x.decode_sha expected_sha_hex)) [
        | inl r ↦ absurd (ground (arith, q, r))
        | inr (expected, r) ↦ elim (ℕ_discrete (length expected) 32) [
          | no ne ↦ absurd (ground (arith, q, r))
          | yes size ↦
              let judged : judge x expected swarm ≡ content body = ground (arith, q, r) in
              let sha = judge-content x expected body swarm judged in
              (r ∙ ap some (sym sha), ap length sha ∙ size)
        ]
      ]
    ]

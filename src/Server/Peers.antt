-- ===== src/Server/Peers.antt =====
-- resourcePeers and isLoopbackHost of resolver/internal/server/resource.go: which peers named by a
-- request are dialled.
use decentralized_dns.Base.{
  ℕ, suc, ◌+◌, ◌≤◌, Bytes, List, [], ◌∷◌, Bool, true, false, ◌&&◌, ◌||◌, leb, Option, none, some,
  if◌then◌else◌, codes, length, all_of, ◌≡◌, refl, sym, ap, ◌∙◌, subst, arith, Bool-cases, inl, inr,
}

-- net.SplitHostPort (its first result), whether net.ParseIP reads a loopback address, and
-- strings.EqualFold
pub record Hosts : Type 0 where
  pub split_host_port : Bytes → Option Bytes
  pub is_loopback_ip : Bytes → Bool
  pub equal_fold : Bytes → Bytes → Bool

abbrev pub max_peers : ℕ
max_peers = 16

unfoldable pub is_loopback_host : Hosts → Bytes → Bool
is_loopback_host x host = x.is_loopback_ip host || x.equal_fold host (codes "localhost")

-- whether the loop takes a peer
unfoldable pub takes_peer : Hosts → Bool → Bytes → Bool
unfolding is_loopback_host
takes_peer x allow_peer_hints p = elim (x.split_host_port p) [
  | none ↦ false
  | some host ↦ allow_peer_hints || is_loopback_host x host
]

-- The loop, with how many peers are already taken; it breaks when the list is full.
unfoldable pub peers_from : Hosts → Bool → ℕ → List Bytes → List Bytes
unfolding takes_peer
peers_from x allow_peer_hints taken [] = []
peers_from x allow_peer_hints taken (p ∷ ps) =
    let more = peers_from x allow_peer_hints (suc taken) ps in
    let skipped = peers_from x allow_peer_hints taken ps in
    if takes_peer x allow_peer_hints p
    then (if leb max_peers (suc taken) then p ∷ [] else p ∷ more)
    else skipped

unfoldable pub resource_peers : Hosts → Bool → List Bytes → List Bytes
unfolding peers_from
resource_peers x allow_peer_hints ps = peers_from x allow_peer_hints 0 ps

module _ (x : Hosts) (allow : Bool) (taken : ℕ) (p : Bytes) (ps : List Bytes) where
  skip :
      takes_peer x allow p ≡ false → peers_from x allow taken (p ∷ ps) ≡ peers_from x allow taken ps
  unfolding peers_from
  skip h = rw h refl

  last :
      takes_peer x allow p ≡ true
      → leb max_peers (suc taken) ≡ true
      → peers_from x allow taken (p ∷ ps) ≡ p ∷ []
  unfolding peers_from
  last h full = rw (h, full) refl

  next :
      takes_peer x allow p ≡ true
      → leb max_peers (suc taken) ≡ false
      → peers_from x allow taken (p ∷ ps) ≡ p ∷ peers_from x allow (suc taken) ps
  unfolding peers_from
  next h room = rw (h, room) refl

peers_from_lem :
    (x : Hosts) (allow : Bool) (taken : ℕ) (ps : List Bytes)
    → suc taken ≤ max_peers
    → (taken + length (peers_from x allow taken ps) ≤ max_peers)
      × (all_of (takes_peer x allow) (peers_from x allow taken ps) ≡ true)
unfolding peers_from
peers_from_lem x allow taken [] h = (omega arith, refl)
peers_from_lem x allow taken (p ∷ ps) h =
    let Good : List Bytes → Type 0 =
      λ l. (taken + length l ≤ max_peers) × (all_of (takes_peer x allow) l ≡ true) in
    elim (Bool-cases (takes_peer x allow p)) [
      | inr no_peer ↦
          subst Good (sym (skip x allow taken p ps no_peer)) (peers_from_lem x allow taken ps h)
      | inl peer ↦ elim (Bool-cases (leb max_peers (suc taken))) [
        | inl full ↦
            subst Good (sym (last x allow taken p ps peer full))
              (omega arith, ap (λ b. b && true) peer)
        | inr room ↦
            let (few, good) = peers_from_lem x allow (suc taken) ps (ground arith) in
            subst Good (sym (next x allow taken p ps peer room)) (
              omega arith,
              ap (λ b. b && all_of (takes_peer x allow) (peers_from x allow (suc taken) ps)) peer
                  ∙ good,
            )
      ]
    ]

-- At most sixteen peers are dialled, each of them an address with a host and a port, and unless the
-- operator allows hints each of them on a loopback host.
pub resource_peers-bounded :
    (x : Hosts) (allow_peer_hints : Bool) (ps : List Bytes)
    → (length (resource_peers x allow_peer_hints ps) ≤ 16)
      × (all_of (takes_peer x allow_peer_hints) (resource_peers x allow_peer_hints ps) ≡ true)
unfolding resource_peers
resource_peers-bounded x allow_peer_hints ps =
    let (few, good) = peers_from_lem x allow_peer_hints 0 ps (omega arith) in (omega arith, good)

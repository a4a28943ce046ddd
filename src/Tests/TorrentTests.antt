-- ===== src/Tests/TorrentTests.antt =====
-- resolver/internal/torrent, resolver/internal/chain/events.go and resolver/internal/config at concrete
-- inputs.
use mathlib.Core.List.{Mem}
use mathlib.Core.List.Memᴰ
use mathlib.Core.Logic.{∥∥₁_elim}
use mathlib.Core.List.Memᴰ.{head}
use decentralized_dns.Base.{
  ℕ, Bytes-discrete, subst, List, [], ◌∷◌, ◌++◌, codes, ◌≡◌, refl, true, false, none, some, arith,
  ◌≤◌,
}
use decentralized_dns.Base.Ints.{pos}
use decentralized_dns.Cache.State.{RecordEvent, registered}
use decentralized_dns.Chain.Events.{
  RegistrationLog, Filters, iterated, tick, window_end, collect_events,
}
use decentralized_dns.Chain.Delivery.{in_registrations, tick-complete, tick_head}
use decentralized_dns.Config.Env.{Environment, Files, getenv, load_dot_env}
use decentralized_dns.Config.FromEnv.{Config, settings, from_env, from_env-IsUsable}
use decentralized_dns.Base.{◌≢◌, ite}
use decentralized_dns.Tests.Instances.{plain}
use decentralized_dns.Config.Validation.{Numbers, IsUsable, numbers_from_env}
use decentralized_dns.Torrent.Engine.{
  Hash, Call, pinning, acquiring, releasing, retaining, new, pin, acquire, release, perform, run,
}
use decentralized_dns.Torrent.Fetch.{
  Swarm, announced, broken, delivered, content, fetch, fetch_hash,
}
use decentralized_dns.Torrent.Threads.{
  Request, fetching, Thread, thread, threads, Schedule, turn, rest, here, there, readers,
}
use decentralized_dns.Torrent.Interleaving.{run-Schedule}
use decentralized_dns.Torrent.Retention.{IsValid, lists}
use decentralized_dns.Torrent.Safety.{run-IsValid, perform-dropped}
use decentralized_dns.Tests.Instances.{hexes}

abbrev ih : Hash
ih = codes "h"

abbrev calls : List Call
calls = acquiring ih ∷ retaining ih ∷ releasing ih ∷ []

run-IsValid_example : IsValid (run new calls)
run-IsValid_example = run-IsValid calls

dropped_now : lists (perform (run new (acquiring ih ∷ [])) (releasing ih)).1 ih ≡ true
unfolding perform run lists Bytes-discrete acquire release
dropped_now = refl

pinned_now : (run new (pinning ih ∷ [])).pinned ih ≡ true
unfolding run perform pin Bytes-discrete
pinned_now = refl

unlisted_now : lists (run new (pinning ih ∷ [])).retained ih ≡ false
unfolding run perform pin lists
unlisted_now = refl

perform-dropped_example :
    ((perform (run new (acquiring ih ∷ [])) (releasing ih)).0.pinned ih ≡ false)
    × ((perform (run new (acquiring ih ∷ [])) (releasing ih)).0.in_use ih ≡ 0)
perform-dropped_example =
    perform-dropped (run new (acquiring ih ∷ [])) (releasing ih) ih
      (run-IsValid (acquiring ih ∷ [])) dropped_now

abbrev swarm : Swarm
swarm = announced 3 (delivered (codes "abc"))

fetched : (fetch hexes ih (codes "66") swarm).1 ≡ content (codes "abc")
unfolding fetch fetch_hash Bytes-discrete
fetched = refl

-- two Fetches of the same torrent: one gets the content, the other's download fails
abbrev requests : List Request
requests = fetching ih (codes "66") swarm ∷ fetching ih (codes "66") (announced 3 broken) ∷ []

-- both acquire the torrent, and the one that fails releases it before the other retains it
abbrev interleaved : List Call
interleaved = acquiring ih ∷ acquiring ih ∷ releasing ih ∷ []

-- the first has still to release it
abbrev left_over : List Thread
left_over = (releasing ih ∷ []) ∷ [] ∷ []

scheduled : Schedule (threads hexes requests) (interleaved ++ (retaining ih ∷ [])) left_over
unfolding threads thread fetch fetch_hash Bytes-discrete
scheduled = turn _ _ _ _ _ (here _ _ _) (
    turn _ _ _ _ _ (there _ _ _ _ (here _ _ _))
      (turn _ _ _ _ _ (there _ _ _ _ (here _ _ _)) (turn _ _ _ _ _ (here _ _ _) (rest left_over))))

run-Schedule_example :
    ((run new (interleaved ++ (retaining ih ∷ []))).in_use ih ≡ readers ih left_over)
    × (lists (perform (run new interleaved) (retaining ih)).1 ih ≡ true
        → ((run new (interleaved ++ (retaining ih ∷ []))).pinned ih ≡ false)
          × (readers ih left_over ≡ 0))
run-Schedule_example = run-Schedule hexes requests interleaved (retaining ih) left_over scheduled ih

abbrev entry : RegistrationLog
entry = record { name = codes "alice"; name_hash = codes "alice"; block_number = 2 }

abbrev ev : RecordEvent
ev = record {
  kind = registered;
  name = codes "alice";
  name_hash = codes "alice";
  record_type = [];
  selector = [];
  block = 2;
}

-- a log with the same entry in each block
abbrev log : ℕ → List RegistrationLog
log n = entry ∷ []

abbrev silent_log : {L : Type 0} → ℕ → List L
silent_log n = []

abbrev filters : Filters
filters = record {
  sets = λ a b. iterated [] true;
  removals = λ a b. iterated [] true;
  transfers = λ a b. iterated [] true;
  registrations = λ a b. iterated (entry ∷ []) true;
}

nothing : {L : Type 0} (x : L) (xs : List L) → Mem x [] → Mem x xs
nothing x xs m = absurd (∥∥₁_elim m (λ a b. absurd a) Memᴰ.not-nil)

found :
    (x : RegistrationLog) (xs : List RegistrationLog)
    → iterated (entry ∷ []) true ≡ iterated xs true
    → Mem x (entry ∷ [])
    → Mem x xs
found x xs q m = subst (λ l. Mem x l) (cc q) m

reached : 2 ≤ (tick filters 0 (some 3)).0
unfolding tick window_end collect_events
reached = omega arith

tick-complete_example : Mem ev (tick filters 0 (some 3)).1
tick-complete_example =
    tick-complete filters silent_log silent_log silent_log log
      (λ a b n e evs h k w q m. nothing e evs m) (λ a b n e evs h k w q m. nothing e evs m)
      (λ a b n e evs h k w q m. nothing e evs m) (λ a b n e evs h k w q m. found e evs q m) 0 2
      (some 3) ev (omega arith) reached (in_registrations entry ∣ head refl ∣₁)

tick_head_example : (tick filters 0 (some 5000)).0 ≡ 5000
tick_head_example = tick_head filters (λ a b. unfold collect_events in refl) 0 5000 (omega arith)

abbrev environment : Environment
environment key = ite (Bytes-discrete key (codes "CONTRACT_ADDRESS")) (some (codes "0x01")) none

abbrev defaults : Numbers
defaults = record {
  rest_port = pos 8080;
  udp_port = pos 5354;
  bt_listen_port = pos 42069;
  cache_size = pos 4096;
  rate_rps = pos 20;
  rate_burst = pos 40;
}

-- no deploy artifact
abbrev files : Files
files = record { read_file = λ p. none; unmarshal = λ text. none }

abbrev configured : Config
configured = settings plain files (λ p. false) environment defaults

starts : from_env plain files (λ p. false) environment [] ≡ some configured
unfolding from_env numbers_from_env load_dot_env Bytes-discrete
starts = refl

from_env-IsUsable_example :
    IsUsable configured.numbers
    × (getenv (load_dot_env plain environment []) (codes "CONTRACT_ADDRESS") ≢ []
        → configured.contract_address
          ≡ getenv (load_dot_env plain environment []) (codes "CONTRACT_ADDRESS"))
from_env-IsUsable_example =
    from_env-IsUsable plain files (λ p. false) environment [] configured starts

-- ===== src/Tests/ServerTests.antt =====
-- resolver/internal/server and the cache under it at concrete inputs.
use decentralized_dns.Base.{
  ℕ, Bytes, Bytes-discrete, [], ◌∷◌, codes, ◌≡◌, refl, length, replicate, true, false, Option, none,
  some, ap, ◌∙◌, ◌≤◌,
}
use decentralized_dns.Base.Text.{trim_space, to_lower}
use decentralized_dns.Cache.State
use decentralized_dns.Cache.State.{TtlCache}
use decentralized_dns.Chain.Types.{Record, ResolveResult, field}
use decentralized_dns.ContentType.{validate}
use decentralized_dns.Pki.Owner.{field_pairs, at_v, raise_v}
use decentralized_dns.Query.Grammar.{name_ok}
use decentralized_dns.Query.Selector.{Query}
use decentralized_dns.Server.Authentic.{IsAuthentic, fetch_verified_resource-IsAuthentic}
use decentralized_dns.Server.Handle.{
  Answer, to_result, QueryResult, key_of, checked, handle_query, run,
}
use decentralized_dns.Server.Limiter.{IpLimiter, allow, lookup, length-allow_recent}
use decentralized_dns.Server.Resource.{
  served, refused, no_match, VerifiedResource, fetch_verified_resource,
}
use decentralized_dns.Server.Served.{IsChecked, fetch_verified_resource-IsChecked}
use decentralized_dns.Server.Trust.{IsTrusted, handle_query-IsTrusted}
use decentralized_dns.Server.Web.{handle_web, handle_web-bad_name}
use decentralized_dns.Torrent.Fetch.{Swarm, announced, delivered, fetch}
use decentralized_dns.Chain.Client.{Remote, Explains, retry, retry-Explains}
use decentralized_dns.Server.Peers.{Hosts}
use decentralized_dns.Base.{zero, suc, ite, List}
use decentralized_dns.Tests.OneSlot.{one_slot}
use decentralized_dns.Tests.Instances.{
  plain, secp, sorter, gnark, hexes, sniffer, rate, raw_sig, owner_address,
}

abbrev pub hash : Bytes → Bytes
hash n = n

abbrev pub empty : TtlCache hash {V = ResolveResult} one_slot
empty = record {
  lru = none;
  index = record { name_keys = λ n. none; hash_names = λ h. none };
  capacity = 1;
  hits = 0;
  misses = 0;
  evictions = 0;
}

abbrev entry : Record
entry = record {
  rtype = codes "ResourceRef";
  selector = [];
  field_names = codes "infoHash" ∷ codes "sha256" ∷ codes "contentType" ∷ [];
  field_vals = codes "aa" ∷ codes "66" ∷ codes "text/html" ∷ [];
  ttl = 60;
  generation = 1;
  owner_sig = at_v raise_v raw_sig;
  commitment = replicate 32 0;
  is_there = true;
}

abbrev answer : Answer
answer = (entry, owner_address, [])

abbrev gone : Answer
gone = (
  record {
    rtype = [];
    selector = [];
    field_names = [];
    field_vals = [];
    ttl = 0;
    generation = 0;
    owner_sig = [];
    commitment = [];
    is_there = false;
  },
  [],
  [],
)

abbrev q : Query
q = record { name = codes "alice"; rtype = codes "ResourceRef"; selector = [] }

abbrev answered : QueryResult
answered = record {
  result = checked secp sorter gnark (codes "alice") (to_result answer);
  cached = false;
}

missed : (State.get hash one_slot empty 0 (key_of q)).1 ≡ none
unfolding State.get
missed = refl

first_answer :
    (handle_query secp sorter gnark hash one_slot
      (run secp sorter gnark hash one_slot empty [])
      0
      1
      q
      (some answer)).1
    ≡ some answered
unfolding handle_query run State.get
first_answer = refl

handle_query-IsTrusted_example : IsTrusted secp sorter gnark (codes "alice") answered.result
handle_query-IsTrusted_example =
    handle_query-IsTrusted secp sorter gnark hash one_slot empty [] 0 1 q (some answer) answered
      (λ k. refl) first_answer

abbrev swarm : Swarm
swarm = announced 3 (delivered (codes "abc"))

abbrev page : VerifiedResource
page = record {
  body = codes "abc";
  owner = owner_address;
  pub_key = [];
  info_hash = codes "aa";
  sha = codes "66";
  content_type = codes "text/html";
  zk_proof = [];
  validation = record { declared = codes "text/html"; detected = codes "text/html"; is_ok = true };
  ttl = 60;
}

from_swarm :
    fetch_verified_resource plain sniffer true true
      (some answered)
      true
      (λ info sha. (fetch hexes info sha swarm).1)
    ≡ served page
unfolding fetch_verified_resource checked Bytes-discrete field_pairs field trim_space fetch validate
    to_lower
from_swarm = refl

fetch_verified_resource-IsChecked_example :
    (res : QueryResult) × (some answered ≡ some res)
    × IsChecked plain sniffer true (λ info sha. (fetch hexes info sha swarm).1) res page
fetch_verified_resource-IsChecked_example =
    fetch_verified_resource-IsChecked plain sniffer true true (some answered) true
      (λ info sha. (fetch hexes info sha swarm).1) page from_swarm

from_chain :
    fetch_verified_resource plain sniffer true true
      (handle_query secp sorter gnark hash one_slot
        (run secp sorter gnark hash one_slot empty [])
        0
        1
        q
        (some answer)).1
      true
      (λ info sha. (fetch hexes info sha swarm).1)
    ≡ served page
from_chain =
    ap
      (λ (a : Option QueryResult).
        fetch_verified_resource plain sniffer true true a true
          (λ info sha. (fetch hexes info sha swarm).1))
      first_answer
    ∙ from_swarm

fetch_verified_resource-IsAuthentic_example : IsAuthentic secp sorter hexes (codes "alice") page
fetch_verified_resource-IsAuthentic_example =
    fetch_verified_resource-IsAuthentic secp sorter gnark hash one_slot plain sniffer hexes swarm
      empty [] 0 1 q (some answer) true true true page (λ k. refl) from_chain

abbrev bad_name : Bytes
bad_name = codes "-bad"

rejected_name : name_ok bad_name ≡ false
unfolding name_ok
rejected_name = refl

handle_web-bad_name_example : handle_web plain bad_name [] (λ x. refused no_match) ≡ none
handle_web-bad_name_example =
    handle_web-bad_name plain bad_name [] (λ x. refused no_match) rejected_name

abbrev limiter : IpLimiter rate
limiter = record { entries = []; rps = 20; burst = 40 }

length-allow_recent_example : length (allow rate limiter 7 (codes "1.2.3.4")).0.entries ≡ 1
length-allow_recent_example =
    length-allow_recent rate limiter 7 (codes "1.2.3.4") (unfold lookup in refl) refl

abbrev hosts : Hosts
hosts = record {
  split_host_port = λ p. some p;
  is_loopback_ip = λ h. false;
  equal_fold = λ a b. ite (Bytes-discrete a b) true false;
}

abbrev hints : List Bytes
hints = codes "localhost" ∷ codes "10.0.0.1" ∷ []

-- a remote call that succeeds at its second attempt
abbrev remote : Remote ℕ
remote = record {
  call = λ i. elim i [ zero ↦ none | suc j ↦ some j ];
  ended_waiting = λ i. false;
  ended_after = λ i. false;
}

retry-Explains_example : Explains remote 3 0 (retry remote).0 × ((retry remote).1 ≤ 3)
retry-Explains_example = retry-Explains remote

-- ===== src/Chain/Reads.antt =====
-- resolver/internal/chain/client.go: the reads of Client, each a retried call of a contract.
use decentralized_dns.Base.{ℕ, ◌<◌, Bytes, List, [], map, Bool, false, none, some, ◌≡◌, arith}
use decentralized_dns.Chain.Types.{Record, ResolveResult, Domain}
use decentralized_dns.Chain.Client.{
  Attempted, done, cancelled, exhausted, Remote, Explains, retry, retry-Explains,
}

-- bindings.NamespaceDAppRecord
pub record Binding : Type 0 where
  pub record_type : Bytes
  pub selector : Bytes
  pub field_names : List Bytes
  pub field_values : List Bytes
  pub ttl : ℕ
  pub generation : ℕ
  pub owner_sig : Bytes
  pub commitment : Bytes
  pub exists : Bool

-- fromBinding
unfoldable pub from_binding : Binding → Record
from_binding r = record {
  rtype = r.record_type;
  selector = r.selector;
  field_names = r.field_names;
  field_vals = r.field_values;
  ttl = r.ttl;
  generation = r.generation;
  owner_sig = r.owner_sig;
  commitment = r.commitment;
  is_there = r.exists;
}

-- What the node and the two contracts answer to each attempt of a call.
pub record Contracts : Type 0 where
  pub block_number : Remote ℕ
  pub resolve : Bytes → Bytes → Bytes → Remote (Binding × Bytes × Bytes)
  pub get_domain : Bytes → Remote (Bytes × Bytes × ℕ × ℕ)
  pub list_records : Bytes → Remote (List Binding)
  pub list_types : Remote (List Bytes)

abbrev pub after_retry : {A B : Type 0} → (A → B) → Attempted A → Attempted B
after_retry f (done a) = done (f a)
after_retry f cancelled = cancelled
after_retry f exhausted = exhausted

abbrev pub resolve_result : Binding × Bytes × Bytes → ResolveResult
resolve_result (r, owner, pub_key) = record {
  entry = from_binding r;
  owner = owner;
  pub_key = pub_key;
  owner_sig_valid = false;
  zk_proof = [];
}

abbrev pub domain_of : Bytes × Bytes × ℕ × ℕ → Domain
domain_of (owner, pub_key, expiry, generation) = record {
  owner = owner;
  pub_key = pub_key;
  expiry = expiry;
  generation = generation;
}

module _ (b : Contracts) where
  unfoldable pub chain_head : Attempted ℕ
  chain_head = (retry b.block_number).0

  unfoldable pub resolve : Bytes → Bytes → Bytes → Attempted ResolveResult
  resolve name rtype selector = after_retry resolve_result (retry (b.resolve name rtype selector)).0

  unfoldable pub get_domain : Bytes → Attempted Domain
  get_domain name = after_retry domain_of (retry (b.get_domain name)).0

  unfoldable pub list_records : Bytes → Attempted (List Record)
  list_records name = after_retry (map from_binding) (retry (b.list_records name)).0

  unfoldable pub list_types : Attempted (List Bytes)
  list_types = (retry b.list_types).0

-- the attempt that a read is from
abbrev pub FirstAnswer : {A : Type 0} → Remote A → A → Type 0
FirstAnswer r a = (k : ℕ) × (k < 3) × (r.call k ≡ some a) × ((j : ℕ) → j < k → r.call j ≡ none)

after_retry-done :
    {A B : Type 0} (f : A → B) (r : Remote A) (x : Attempted A) (y : B)
    → Explains r 3 0 x
    → after_retry f x ≡ done y
    → (a : A) × (f a ≡ y) × FirstAnswer r a
after_retry-done f r (done a) y (k, lo, hi, got, before) h =
    (a, cc, (k, hi, got, λ j below. before j (omega arith) below))
after_retry-done f r cancelled y e h = cc
after_retry-done f r exhausted y e h = cc

-- The records that ListRecords returns are those of the contract's first answer, in its order.
pub list_records-call :
    (b : Contracts) (name : Bytes) (records : List Record)
    → list_records b name ≡ done records
    → (raw : List Binding) × (map from_binding raw ≡ records)
      × FirstAnswer (b.list_records name) raw
unfolding list_records
list_records-call b name records h =
    after_retry-done (map from_binding) (b.list_records name) (retry (b.list_records name)).0
      records (retry-Explains (b.list_records name)).0 h

-- What Resolve returns is the contract's first answer, not yet verified.
pub resolve-call :
    (b : Contracts) (name rtype selector : Bytes) (res : ResolveResult)
    → resolve b name rtype selector ≡ done res
    → (raw : Binding × Bytes × Bytes) × (resolve_result raw ≡ res)
      × FirstAnswer (b.resolve name rtype selector) raw
unfolding resolve
resolve-call b name rtype selector res h =
    after_retry-done resolve_result (b.resolve name rtype selector)
      (retry (b.resolve name rtype selector)).0 res
      (retry-Explains (b.resolve name rtype selector)).0 h

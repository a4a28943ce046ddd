-- ===== src/Chain/Types.antt =====
-- resolver/internal/chain/types.go: on-chain records and the lookup of a field.
use decentralized_dns.Base.{ℕ, Bytes, Bytes-discrete, List, [], ◌∷◌, Bool, Option, none, some, ite}

-- chain.Record
pub record Record : Type 0 where
  pub rtype : Bytes
  pub selector : Bytes
  pub field_names : List Bytes
  pub field_vals : List Bytes
  pub ttl : ℕ
  pub generation : ℕ
  pub owner_sig : Bytes
  pub commitment : Bytes
  pub is_there : Bool

-- a record with other fields
abbrev pub with_fields : Record → List Bytes → List Bytes → Record
with_fields r names vals = record {
  rtype = r.rtype;
  selector = r.selector;
  field_names = names;
  field_vals = vals;
  ttl = r.ttl;
  generation = r.generation;
  owner_sig = r.owner_sig;
  commitment = r.commitment;
  is_there = r.is_there;
}

-- a record with another signature
abbrev pub with_sig : Record → Bytes → Record
with_sig r sig = record {
  rtype = r.rtype;
  selector = r.selector;
  field_names = r.field_names;
  field_vals = r.field_vals;
  ttl = r.ttl;
  generation = r.generation;
  owner_sig = sig;
  commitment = r.commitment;
  is_there = r.is_there;
}

-- chain.ResolveResult
pub record ResolveResult : Type 0 where
  pub entry : Record
  pub owner : Bytes
  pub pub_key : Bytes
  pub owner_sig_valid : Bool
  pub zk_proof : Bytes

-- chain.Domain
pub record Domain : Type 0 where
  pub owner : Bytes
  pub pub_key : Bytes
  pub expiry : ℕ
  pub generation : ℕ

-- The loop of Field over the names, beside the values from the same index on: a name without a
-- value is an absent field.
unfoldable pub find_field : Bytes → List Bytes → List Bytes → Option Bytes
unfolding Bytes-discrete
find_field name [] vals = none
find_field name (n ∷ ns) [] = none
find_field name (n ∷ ns) (v ∷ vs) = ite (Bytes-discrete n name) (some v) (find_field name ns vs)

unfoldable pub field : Record → Bytes → Option Bytes
unfolding find_field
field r name = find_field name r.field_names r.field_vals

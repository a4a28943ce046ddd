-- ===== src/Cli/Owner.antt =====
-- The commands of resolver/cmd/ddns/main.go that an owner changes the namespace with.
use decentralized_dns.Base.{
  ℕ, ◌%◌, ◌^◌, Bytes, Bytes-discrete, List, [], ◌∷◌, ◌++◌, Bool, true, false, not, ◌||◌, ◌==◌, ltb,
  Option, none, some, ite, if◌then◌else◌, codes, length, drop, replicate,
}
use decentralized_dns.Base.Text.{Unicode}
use decentralized_dns.Config.Env.{Environment}
use decentralized_dns.Query.Selector.{ok, err}
use decentralized_dns.Query.Selector.{parse_selector_string, one_of}
use decentralized_dns.Chain.Types.{Record}
use decentralized_dns.Pki.Owner.{Secp, SliceSort, record_message, sign_record}
use decentralized_dns.Zk.Pack.{Gnark, commitment}
use decentralized_dns.Cli.Args.{FlagSet, flag_value}
use decentralized_dns.Cli.Fields.{parse_pairs, split_csv}
use decentralized_dns.Cli.Addresses.{Tools}
use decentralized_dns.Cli.Script.{
  commit, register, set_record, remove_record, transfer, renew, declare_type, withdraw, Network,
  Script, ran, exit, ◌>>=◌, ◌>>◌, or_fatal, ensure, need_arg, parse_args, send, Conn, dial,
  generation_of,
}

-- the kinds of a flag's value
pub data FlagType : Type 0 where
  text uint int bool duration : FlagType

abbrev pub Flags : Type 0
Flags = List (Bytes × FlagType)

-- the flags of addCommon
abbrev pub common_flags : Flags
common_flags =
    (codes "rpc", text)
    ∷ (codes "key", text)
    ∷ (codes "deployments", text)
    ∷ (codes "namespace", text)
    ∷ (codes "registry", text)
    ∷ []

unfoldable pub type_of : Flags → Bytes → Option FlagType
type_of [] n = none
type_of ((m, ty) ∷ rest) n = ite (Bytes-discrete n m) (some ty) (type_of rest n)

abbrev pub is_some : Option ℕ → Bool
is_some none = false
is_some (some n) = true

-- strconv.ParseBool
abbrev pub true_texts : List Bytes
true_texts = codes "1" ∷ codes "t" ∷ codes "T" ∷ codes "TRUE" ∷ codes "true" ∷ codes "True" ∷ []

abbrev pub false_texts : List Bytes
false_texts = codes "0" ∷ codes "f" ∷ codes "F" ∷ codes "FALSE" ∷ codes "false" ∷ codes "False" ∷ []

abbrev pub is_bool : FlagType → Bool
is_bool bool = true
is_bool _ = false

abbrev pub no_switches : Bytes → Bool
no_switches n = false

module _ (c : Secp) (t : Tools c) where
  abbrev pub takes : FlagType → Bytes → Bool
  takes text v = true
  takes uint v = is_some (t.parse_uint v)
  takes int v = is_some (t.parse_int v)
  takes bool v = one_of true_texts v || one_of false_texts v
  takes duration v = is_some (t.parse_duration v)

  -- a FlagSet with the given flags beside the common ones
  abbrev pub flag_set : Flags → FlagSet
  flag_set own = record {
    formal =
        λ n. elim (type_of (own ++ common_flags) n) [ none ↦ none | some ty ↦ some (is_bool ty) ];
    accepts = λ n v. elim (type_of (own ++ common_flags) n) [ none ↦ false | some ty ↦ takes ty v ];
  }

  -- the value of a flag with a number
  unfoldable pub number_value : (Bytes → Option ℕ) → Bytes → ℕ → List (Bytes × Bytes) → ℕ
  number_value parse name default [] = default
  number_value parse name default ((n, v) ∷ rest) =
      number_value parse name
        (ite (Bytes-discrete n name) (elim (parse v) [ none ↦ default | some k ↦ k ]) default) rest

module _ (c : Secp) (o : SliceSort) (g : Gnark) (t : Tools c) (env : Environment) (u : Unicode)
    (net : Network) where
  unfoldable pub canonical : Bytes → Script Bytes
  canonical selector = elim (parse_selector_string u selector) [
    | err e ↦ exit [] 1
    | ok sel ↦ ran [] sel
  ]

  abbrev pub text_flag : Bytes → List (Bytes × Bytes) → Bytes
  text_flag name assigned = flag_value name [] assigned

  abbrev pub parsed_args :
      (Bytes → Bool) → Flags → List Bytes → Script (List (Bytes × Bytes) × List Bytes)
  parsed_args bools own = parse_args bools (flag_set c t own)

  -- zk.Commitment of the record's message
  unfoldable pub record_commitment : Bytes → Record → Option Bytes
  unfolding record_message commitment
  record_commitment name rec = elim (record_message o name rec) [
    | none ↦ none
    | some m ↦ commitment g m
  ]

  -- What cmdSet and cmdPublishResource do with the record that they have made.
  unfoldable pub publish : Conn c t env u net → Bytes → Record → Script (Unit {0})
  publish conn name rec = do
    sig ← or_fatal (sign_record c o name rec conn.key)
    hash ← or_fatal (record_commitment name rec)
    send net
        (set_record name rec.rtype rec.selector rec.field_names rec.field_vals rec.ttl sig hash)

  abbrev pub new_record : Bytes → Bytes → List Bytes → List Bytes → ℕ → ℕ → Record
  new_record rtype sel names values ttl generation = record {
    rtype = rtype;
    selector = sel;
    field_names = names;
    field_vals = values;
    ttl = ttl;
    generation = generation;
    owner_sig = [];
    commitment = replicate 32 0;
    is_there = false;
  }

  -- uint32(*ttl)
  abbrev pub ttl_flag : List (Bytes × Bytes) → ℕ
  ttl_flag assigned = number_value c t t.parse_uint (codes "ttl") 3600 assigned % 2 ^ 32

  unfoldable pub cmd_set : List Bytes → Script (Unit {0})
  cmd_set args = do
    p ← parsed_args no_switches ((codes "selector", text) ∷ (codes "ttl", uint) ∷ []) args
    name ← need_arg p.1 0
    rtype ← need_arg p.1 1
    fields ← or_fatal (parse_pairs (drop 2 p.1))
    sel ← canonical (text_flag (codes "selector") p.0)
    conn ← dial c t env u net p.0 false
    generation ← generation_of c t env u net name
    publish conn name (new_record rtype sel fields.0 fields.1 (ttl_flag p.0) generation)

  unfoldable pub cmd_remove : List Bytes → Script (Unit {0})
  cmd_remove args = do
    p ← parsed_args no_switches ((codes "selector", text) ∷ []) args
    name ← need_arg p.1 0
    rtype ← need_arg p.1 1
    sel ← canonical (text_flag (codes "selector") p.0)
    conn ← dial c t env u net p.0 false
    send net (remove_record name rtype sel)

  unfoldable pub cmd_transfer : List Bytes → Script (Unit {0})
  cmd_transfer args = do
    p ← parsed_args no_switches ((codes "pubkey", text) ∷ []) args
    name ← need_arg p.1 0
    new_owner ← need_arg p.1 1
    ensure (t.is_hex_address new_owner)
    let pubkey = text_flag (codes "pubkey") p.0
    ensure (not (ite (Bytes-discrete pubkey []) true false))
    let new_pub = t.from_hex pubkey
    ensure (not (length new_pub == 0 || ltb 128 (length new_pub)))
    conn ← dial c t env u net p.0 false
    send net (transfer name (t.hex_to_address new_owner) new_pub)

  unfoldable pub cmd_renew : List Bytes → Script (Unit {0})
  cmd_renew args = do
    p ← parsed_args no_switches [] args
    name ← need_arg p.1 0
    conn ← dial c t env u net p.0 false
    price ← or_fatal (net.price_of name)
    send net (renew name price)

  unfoldable pub cmd_declare_type : List Bytes → Script (Unit {0})
  cmd_declare_type args = do
    p ← parsed_args no_switches ((codes "mandatory", text) ∷ (codes "optional", text) ∷ []) args
    name ← need_arg p.1 0
    conn ← dial c t env u net p.0 true
    send net (
        declare_type name (split_csv u (text_flag (codes "mandatory") p.0))
          (split_csv u (text_flag (codes "optional") p.0)))

  unfoldable pub cmd_withdraw : List Bytes → Script (Unit {0})
  cmd_withdraw args = do
    p ← parsed_args no_switches ((codes "to", text) ∷ []) args
    conn ← dial c t env u net p.0 false
    let to = text_flag (codes "to") p.0
    let given = not (ite (Bytes-discrete to []) true false)
    ensure (not given || t.is_hex_address to)
    send net (withdraw (if given then t.hex_to_address to else conn.from))

  -- Two transactions: the commitment, and after the wait the name that it hides.
  unfoldable pub cmd_register : List Bytes → Script (Unit {0})
  cmd_register args = do
    p ← parsed_args no_switches [] args
    name ← need_arg p.1 0
    conn ← dial c t env u net p.0 false
    let pub_key = c.from_ecdsa_pub (c.public_key conn.key)
    price ← or_fatal (net.price_of name)
    secret ← or_fatal net.random
    hidden ← or_fatal (net.make_commitment name conn.from pub_key secret)
    send net (commit hidden)
    min_age ← or_fatal net.min_commitment_age
    send net (register name pub_key secret price)

-- ===== src/Tests/CliTests.antt =====
-- resolver/cmd/ddns and resolver/internal/pay at concrete inputs.
use mathlib.Core.Option.{some-injective}
use decentralized_dns.Base.{
  take, drop, ◌≤◌, subst, ℕ, ◌*◌, ◌^◌, Bytes, Bytes-discrete, List, [], ◌∷◌, Bool, true, false,
  none, some, codes, replicate, ite, ◌≡◌, refl, arith,
}
use decentralized_dns.Base.Text.{trim_space, cut}
use decentralized_dns.Chain.Types.{Domain}
use decentralized_dns.Config.Env.{Environment}
use decentralized_dns.Pki.Owner.{at_v, raise_v, sign_record, field_pairs, write_message}
use decentralized_dns.Pay.Binding.{encoding_inj, recover_voucher-sign_voucher}
use decentralized_dns.Pay.Voucher.{VoucherCrypto, signer, sign_voucher, recover_voucher}
use decentralized_dns.Query.Selector.{parse_selector_string, parse_pairs, canonical_selector}
use decentralized_dns.Zk.Pack.{Gnark, value_of}
use decentralized_dns.Zk.Calldata.{
  Layout, proof_from_calldata, proof_from_calldata-marshal_solidity,
}
use decentralized_dns.Cli.Addresses.{
  Tools, read_pair, first_known, resolve_addrs, resolve_addrs-first_known,
}
use decentralized_dns.Cli.Amount.{decimal_value, must_eth}
use decentralized_dns.Cli.Anchored.{IsAnchored, cmd_set-IsAnchored}
use decentralized_dns.Cli.Args.{FlagSet, parsed, parse, reorder}
use decentralized_dns.Cli.Exact.{amount, must_eth-exact}
use decentralized_dns.Cli.Fields
use decentralized_dns.Cli.Main.{main}
use decentralized_dns.Cli.Orderly.{IsOrderly}
use decentralized_dns.Cli.Owner.{
  cmd_set, publish, canonical, record_commitment, type_of, number_value,
}
use decentralized_dns.Cli.Publish.{Seeder}
use decentralized_dns.Cli.Receipts.{main-IsOrderly}
use decentralized_dns.Cli.Reorder.{
  Item, single, double, valued, inline, switch, plain, tokens, assignments, arguments,
  parse-reorder,
}
use decentralized_dns.Cli.Script.{
  Tx, set_record, Network, confirmed, ran, ◌>>=◌, or_fatal, ensure, parse_args, need_arg, dial,
  generation_of, send,
}
use decentralized_dns.Tests.Instances
use decentralized_dns.Tests.Instances.{secp, sorter, gnark, raw_sig, owner_address}

abbrev pub tools : Tools secp
tools = record {
  hex_to_address = λ s. replicate 20 1;
  is_hex_address = λ s. true;
  from_hex = λ s. s;
  hex_decode = λ s. some s;
  hex_to_ecdsa = λ s. some tt;
  parse_uint = λ s. some 60;
  parse_int = λ s. some 60;
  parse_duration = λ s. some 60;
  read_file = λ p. none;
  contract_of = λ name text. none;
  contracts_of = λ text. none;
}

abbrev pub no_env : Environment
no_env k = none

abbrev pub domain : Domain
domain = record { owner = owner_address; pub_key = []; expiry = 99; generation = 7 }

abbrev pub node : Network
node = record {
  connects = λ url. true;
  get_domain = λ name. some domain;
  price_of = λ name. some 5;
  make_commitment = λ name from key secret. some (replicate 32 1);
  min_commitment_age = some 60;
  random = some (replicate 32 2);
  submit = λ tx. confirmed;
}

abbrev set_args : List Bytes
set_args =
    codes "alice"
    ∷ codes "--key"
    ∷ codes "ab"
    ∷ codes "A"
    ∷ codes "--namespace=cd"
    ∷ codes "ip=1.2.3.4"
    ∷ []

abbrev pub set_txs : List Tx
set_txs =
    set_record (codes "alice") (codes "A") [] (codes "ip" ∷ []) (codes "1.2.3.4" ∷ []) 3600
      (at_v raise_v raw_sig) (replicate 32 3)
    ∷ []

set_runs : cmd_set secp sorter gnark tools no_env Instances.plain node set_args ≡ ran set_txs tt
unfolding cmd_set ◌>>=◌ or_fatal ensure parse_args need_arg canonical dial generation_of publish
    send Bytes-discrete type_of Fields.parse_pairs cut parse_selector_string parse_pairs trim_space
    canonical_selector sign_record field_pairs record_commitment write_message number_value
set_runs = refl

cmd_set-IsAnchored_example : IsAnchored secp sorter gnark node set_txs
cmd_set-IsAnchored_example =
    cmd_set-IsAnchored secp sorter gnark tools no_env Instances.plain node set_args set_txs set_runs

low_half :
    (sig : Bytes) → some raw_sig ≡ some sig → value_of 0 (take 32 (drop 32 sig)) ≤ 256 ^ 31 * 128
unfolding value_of
low_half sig h =
    let low : value_of 0 (take 32 (drop 32 raw_sig)) ≤ 256 ^ 31 * 128 = omega arith in
    subst (λ s. value_of 0 (take 32 (drop 32 s)) ≤ 256 ^ 31 * 128) (some-injective _ _ h) low

abbrev keys : VoucherCrypto secp
keys = record {
  keccak256 = λ m. m;
  curve_order = 256 ^ 32;
  sign_low_s = λ d k sig h. low_half sig h;
}

abbrev no_seeder : Seeder
no_seeder = record {
  type_by_extension = λ p. [];
  read_head = λ p. none;
  detect = λ b. [];
  mkdir_temp = none;
  starts = λ dir port. false;
  seed_file = λ file. none;
}

main-IsOrderly_example : IsOrderly node (
    main secp sorter gnark keys tools no_env Instances.plain node no_seeder
      (λ e. none)
      none
      (codes "set" ∷ set_args))
main-IsOrderly_example =
    main-IsOrderly secp sorter gnark keys tools no_env Instances.plain node no_seeder (λ e. none)
      none (codes "set" ∷ set_args)

-- a set with one text flag and one Boolean flag
abbrev two_flags : FlagSet
two_flags = record {
  formal = λ n.
      ite (Bytes-discrete n (codes "ttl")) (some false)
        (ite (Bytes-discrete n (codes "dry")) (some true) none);
  accepts = λ n v. true;
}

abbrev is_dry : Bytes → Bool
is_dry n = ite (Bytes-discrete n (codes "dry")) true false

abbrev items : List Item
items =
    plain (codes "alice")
    ∷ switch double (codes "dry")
    ∷ plain (codes "A")
    ∷ valued single (codes "ttl") (codes "60")
    ∷ inline double (codes "ttl") (codes "70")
    ∷ plain (codes "k=v")
    ∷ []

parse-reorder_example :
    parse two_flags (reorder is_dry (tokens items)) ≡ parsed (assignments items) (arguments items)
unfolding Bytes-discrete
parse-reorder_example = parse-reorder two_flags is_dry items (
  refl,
  (
    (refl, refl, refl, refl),
    (refl, ((refl, refl, refl, refl), ((refl, false, refl, refl), (refl, tt)))),
  ),
)

resolve_addrs-first_known_example :
    resolve_addrs secp tools no_env (codes "deploy.json") [] (codes "0x01") ≡ (
      first_known secp tools no_env
          ([] ∷ (read_pair secp tools no_env (codes "deploy.json")).0 ∷ [] ∷ []),
      first_known secp tools no_env
          (codes "0x01" ∷ (read_pair secp tools no_env (codes "deploy.json")).1 ∷ [] ∷ []),
    )
resolve_addrs-first_known_example =
    resolve_addrs-first_known secp tools no_env (codes "deploy.json") [] (codes "0x01")

-- 12.05 ETH
must_eth-exact_example :
    must_eth Instances.plain (amount (codes "12") (codes "05")) ≡ some 12050000000000000000
unfolding decimal_value Bytes-discrete
must_eth-exact_example =
    must_eth-exact Instances.plain (codes "12") (codes "05") refl refl (omega arith)

abbrev contract : Bytes
contract = replicate 20 4

abbrev channel : Bytes
channel = replicate 32 5

encoding_inj_example : (contract ≡ contract) × (channel ≡ channel) × (◌≡◌ {A = ℕ} 1000 1000)
encoding_inj_example =
    encoding_inj contract contract channel channel 1000 1000 refl refl refl refl refl

voucher : sign_voucher secp keys tt contract channel 1000 ≡ some (at_v raise_v raw_sig)
unfolding sign_voucher
voucher = refl

recover_voucher-sign_voucher_example :
    recover_voucher secp keys contract channel 1000 (at_v raise_v raw_sig) ≡ signer owner_address
recover_voucher-sign_voucher_example =
    recover_voucher-sign_voucher secp keys tt contract channel 1000 (at_v raise_v raw_sig) voucher

-- one proof, with eight equal coordinates
abbrev one_proof : Gnark
one_proof = record {
  Proof = Unit {0};
  mimc = λ l. none;
  prove = λ l h. none;
  marshal_solidity = λ p. replicate 256 0;
  Element = Unit {0};
  set_bytes_canonical = λ b. some tt;
  assemble = λ a b c d e f g h. tt;
  verify = λ p h. true;
}

abbrev one_layout : Layout one_proof
one_layout = record {
  bytes = λ e. replicate 32 0;
  length-bytes = λ e. refl;
  set_bytes = λ e. refl;
  coordinates = λ p. (tt, tt, tt, tt, tt, tt, tt, tt, refl, refl);
}

proof_from_calldata-marshal_solidity_example :
    proof_from_calldata one_proof (replicate 256 0) ≡ some tt
proof_from_calldata-marshal_solidity_example =
    proof_from_calldata-marshal_solidity one_proof one_layout tt

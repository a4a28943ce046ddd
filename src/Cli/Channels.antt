-- ===== src/Cli/Channels.antt =====
-- The commands of resolver/cmd/ddns/channels.go, and announce-resolver of
-- resolver/cmd/ddns/main.go: they reach their contract through a directory address.
use decentralized_dns.Base.{
  ℕ, Bytes, Bytes-discrete, List, [], ◌∷◌, not, ◌==◌, Option, ite, codes, length, true, false,
}
use decentralized_dns.Base.Text.{Unicode}
use decentralized_dns.Config.Env.{Environment}
use decentralized_dns.Pki.Owner.{Secp}
use decentralized_dns.Pay.Voucher.{VoucherCrypto, sign_voucher}
use decentralized_dns.Cli.Args.{flag_value}
use decentralized_dns.Cli.Addresses.{Tools, resolver_registry_addr, incentives_addr, load_key}
use decentralized_dns.Cli.Amount.{must_eth, must_channel_id}
use decentralized_dns.Cli.Owner.{Flags, text, duration, no_switches, flag_set, number_value}
use decentralized_dns.Cli.Script.{
  announce, open_channel, claim, close_channel, Network, Script, ◌>>=◌, ◌>>◌, give, or_fatal,
  ensure, parse_args, send, common_value, is_zero,
}

-- what fetchResolverPubKey reads at an endpoint: the JSON field, "" if it is missing
abbrev pub AdminStats : Type 0
AdminStats = Bytes → Option Bytes

unfoldable pub fetch_resolver_pub_key : AdminStats → Bytes → Script Bytes
fetch_resolver_pub_key stats endpoint = do
  key ← or_fatal (stats endpoint)
  ensure (not (ite (Bytes-discrete key []) true false))
  give key

module _ (c : Secp) (v : VoucherCrypto c) (t : Tools c) (env : Environment) (u : Unicode)
    (net : Network) where
  abbrev channel_args : Flags → List Bytes → Script (List (Bytes × Bytes) × List Bytes)
  channel_args own = parse_args no_switches (flag_set c t ((codes "incentives", text) ∷ own))

  -- The key that a command finds, once the contract's address is known and the node is reached.
  unfoldable pub dial_directory : Bytes → List (Bytes × Bytes) → Script c.PrivateKey
  dial_directory contract assigned = do
    ensure (not (is_zero c t env u net contract))
    key ← or_fatal (load_key c t env u (common_value c t env u net (codes "key") assigned))
    ensure (net.connects (common_value c t env u net (codes "rpc") assigned))
    give key

  abbrev incentives : List (Bytes × Bytes) → Bytes
  incentives assigned =
      incentives_addr c t env (common_value c t env u net (codes "deployments") assigned)
        (flag_value (codes "incentives") [] assigned)

  unfoldable pub dial_incentives : List (Bytes × Bytes) → Script c.PrivateKey
  dial_incentives assigned = dial_directory (incentives assigned) assigned

  -- time.Duration's whole seconds; a day by default
  abbrev lifetime : List (Bytes × Bytes) → ℕ
  lifetime assigned = number_value c t t.parse_duration (codes "duration") 86400 assigned

  unfoldable pub cmd_channel_open : List Bytes → Script (Unit {0})
  cmd_channel_open args = do
    p ←
        channel_args
          ((codes "resolver-operator", text)
            ∷ (codes "amount", text)
            ∷ (codes "duration", duration)
            ∷ [])
          args
    let operator = flag_value (codes "resolver-operator") [] p.0
    ensure (t.is_hex_address operator)
    wei ← or_fatal (must_eth u (flag_value (codes "amount") [] p.0))
    key ← dial_incentives p.0
    send net (open_channel (t.hex_to_address operator) (lifetime p.0) wei)

  -- The voucher that is printed.
  unfoldable pub cmd_voucher : List Bytes → Script Bytes
  cmd_voucher args = do
    p ← channel_args ((codes "channel", text) ∷ (codes "amount", text) ∷ []) args
    id ← or_fatal (must_channel_id t.hex_decode (flag_value (codes "channel") [] p.0))
    wei ← or_fatal (must_eth u (flag_value (codes "amount") [] p.0))
    ensure (not (is_zero c t env u net (incentives p.0)))
    key ← or_fatal (load_key c t env u (common_value c t env u net (codes "key") p.0))
    or_fatal (sign_voucher c v key (incentives p.0) id wei)

  unfoldable pub cmd_channel_claim : List Bytes → Script (Unit {0})
  cmd_channel_claim args = do
    p ←
        channel_args
          ((codes "channel", text) ∷ (codes "amount", text) ∷ (codes "voucher", text) ∷ []) args
    id ← or_fatal (must_channel_id t.hex_decode (flag_value (codes "channel") [] p.0))
    wei ← or_fatal (must_eth u (flag_value (codes "amount") [] p.0))
    sig ← or_fatal (t.hex_decode (flag_value (codes "voucher") [] p.0))
    key ← dial_incentives p.0
    send net (claim id wei sig)

  unfoldable pub cmd_channel_close : List Bytes → Script (Unit {0})
  cmd_channel_close args = do
    p ← channel_args ((codes "channel", text) ∷ []) args
    id ← or_fatal (must_channel_id t.hex_decode (flag_value (codes "channel") [] p.0))
    key ← dial_incentives p.0
    send net (close_channel id)

  unfoldable pub cmd_announce_resolver : AdminStats → List Bytes → Script (Unit {0})
  cmd_announce_resolver stats args = do
    p ←
        parse_args no_switches
          (flag_set c t (
            (codes "endpoint", text)
            ∷ (codes "pubkey", text)
            ∷ (codes "resolver-registry", text)
            ∷ []))
          args
    let endpoint = flag_value (codes "endpoint") [] p.0
    ensure (not (ite (Bytes-discrete endpoint []) true false))
    let given = flag_value (codes "pubkey") [] p.0
    pub_hex ← ite (Bytes-discrete given []) (fetch_resolver_pub_key stats endpoint) (give given)
    pk ← or_fatal (t.hex_decode pub_hex)
    ensure (length pk == 32)
    key ←
        dial_directory
          (resolver_registry_addr c t env (common_value c t env u net (codes "deployments") p.0)
            (flag_value (codes "resolver-registry") [] p.0))
          p.0
    send net (announce pk endpoint)

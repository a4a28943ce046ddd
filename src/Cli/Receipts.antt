-- ===== src/Cli/Receipts.antt =====
-- Every command of resolver/cmd/ddns: what it submits after a transaction that was not confirmed.
use decentralized_dns.Base.{ℕ, Bytes, Bytes-discrete, List, [], ◌∷◌, Option, ite, if_pos, if_neg}
use decentralized_dns.Base.Text.{Unicode}
use decentralized_dns.Config.Env.{Environment}
use decentralized_dns.Chain.Types.{Record}
use decentralized_dns.Pki.Owner.{Secp, SliceSort}
use decentralized_dns.Pay.Voucher.{VoucherCrypto}
use decentralized_dns.Query.Selector.{Result, ok, err, parse_selector_string}
use decentralized_dns.Zk.Pack.{Gnark}
use decentralized_dns.Cli.Addresses.{Tools}
use decentralized_dns.Cli.Script.{Network, Script, ran, exit, Conn, give, or_fatal}
use decentralized_dns.Cli.Owner.{
  canonical, publish, cmd_set, cmd_remove, cmd_transfer, cmd_renew, cmd_declare_type, cmd_withdraw,
  cmd_register,
}
use decentralized_dns.Cli.Channels.{
  AdminStats, fetch_resolver_pub_key, dial_directory, dial_incentives, cmd_channel_open,
  cmd_voucher, cmd_channel_claim, cmd_channel_close, cmd_announce_resolver,
}
use decentralized_dns.Cli.Publish.{
  Seeder, Announced, seed, cmd_publish_resource, cmd_seed, cmd_resolvers,
}
use decentralized_dns.Cli.Main.{printed, dispatch, main}
use decentralized_dns.Cli.Orderly.{
  IsOrderly, succeeds, fails, give-IsOrderly, or_fatal-IsOrderly, >>=-IsOrderly, ensure-IsOrderly,
  need_arg-IsOrderly, parse_args-IsOrderly, send-IsOrderly, generation_of-IsOrderly, dial-IsOrderly,
}

ruleset orderly = (
  give-IsOrderly, or_fatal-IsOrderly, ensure-IsOrderly, need_arg-IsOrderly, parse_args-IsOrderly,
  send-IsOrderly, generation_of-IsOrderly, dial-IsOrderly, >>=-IsOrderly,
)

module _ (c : Secp) (o : SliceSort) (g : Gnark) (t : Tools c) (env : Environment) (u : Unicode)
    (net : Network) where
  canonical-IsOrderly : (sel : Bytes) → IsOrderly net (canonical c o g t env u net sel)
  unfolding canonical
  canonical-IsOrderly sel =
      elim (parse_selector_string u sel)
        as (λ (x : Result Bytes).
          IsOrderly net {A = Bytes} (elim x [ err e ↦ exit [] 1 | ok s ↦ ran [] s ])) [
            | err e ↦ fails [] 1 tt
            | ok s ↦ succeeds [] s tt
          ]

  publish-IsOrderly :
      (conn : Conn c t env u net) (name : Bytes) (rec : Record)
      → IsOrderly net (publish c o g t env u net conn name rec)
  unfolding publish
  publish-IsOrderly conn name rec = search orderly

  cmd_set-IsOrderly : (args : List Bytes) → IsOrderly net (cmd_set c o g t env u net args)
  unfolding cmd_set
  cmd_set-IsOrderly args = search (orderly, canonical-IsOrderly, publish-IsOrderly) depth 14

  cmd_remove-IsOrderly : (args : List Bytes) → IsOrderly net (cmd_remove c o g t env u net args)
  unfolding cmd_remove
  cmd_remove-IsOrderly args = search (orderly, canonical-IsOrderly, publish-IsOrderly) depth 14

  cmd_transfer-IsOrderly : (args : List Bytes) → IsOrderly net (cmd_transfer c o g t env u net args)
  unfolding cmd_transfer
  cmd_transfer-IsOrderly args = search (orderly, canonical-IsOrderly, publish-IsOrderly) depth 14

  cmd_renew-IsOrderly : (args : List Bytes) → IsOrderly net (cmd_renew c o g t env u net args)
  unfolding cmd_renew
  cmd_renew-IsOrderly args = search (orderly, canonical-IsOrderly, publish-IsOrderly) depth 14

  cmd_declare_type-IsOrderly :
      (args : List Bytes) → IsOrderly net (cmd_declare_type c o g t env u net args)
  unfolding cmd_declare_type
  cmd_declare_type-IsOrderly args =
      search (orderly, canonical-IsOrderly, publish-IsOrderly) depth 14

  cmd_withdraw-IsOrderly : (args : List Bytes) → IsOrderly net (cmd_withdraw c o g t env u net args)
  unfolding cmd_withdraw
  cmd_withdraw-IsOrderly args = search (orderly, canonical-IsOrderly, publish-IsOrderly) depth 14

  cmd_register-IsOrderly : (args : List Bytes) → IsOrderly net (cmd_register c o g t env u net args)
  unfolding cmd_register
  cmd_register-IsOrderly args = search (orderly, canonical-IsOrderly, publish-IsOrderly) depth 14

  module _ (s : Seeder) where
    seed-IsOrderly :
        (data_dir : Bytes) (port : ℕ) (file : Bytes) → IsOrderly net (seed s data_dir port file)
    unfolding seed
    seed-IsOrderly data_dir port file =
        >>=-IsOrderly net (ite (Bytes-discrete data_dir []) (or_fatal s.mkdir_temp) (give data_dir))
          _
          (elim (Bytes-discrete data_dir []) [
            | yes h ↦ rw (if_pos _ h) (or_fatal-IsOrderly net s.mkdir_temp)
            | no h ↦ rw (if_neg _ h) (give-IsOrderly net data_dir)
          ])
          (λ dir. search (orderly) depth 8)

    cmd_publish_resource-IsOrderly :
        (args : List Bytes) → IsOrderly net (cmd_publish_resource c o g t env u net s args)
    unfolding cmd_publish_resource
    cmd_publish_resource-IsOrderly args =
        search (orderly, canonical-IsOrderly, publish-IsOrderly, seed-IsOrderly) depth 14

    cmd_seed-IsOrderly : (args : List Bytes) → IsOrderly net (cmd_seed c o g t env u net s args)
    unfolding cmd_seed
    cmd_seed-IsOrderly args = search (orderly, seed-IsOrderly) depth 8

    cmd_resolvers-IsOrderly :
        (active : Option (List Announced)) (args : List Bytes)
        → IsOrderly net (cmd_resolvers c o g t env u net s active args)
    unfolding cmd_resolvers
    cmd_resolvers-IsOrderly active args = search (orderly) depth 8

module _ (c : Secp) (v : VoucherCrypto c) (t : Tools c) (env : Environment) (u : Unicode)
    (net : Network) where
  dial_directory-IsOrderly :
      (contract : Bytes) (assigned : List (Bytes × Bytes))
      → IsOrderly net (dial_directory c v t env u net contract assigned)
  unfolding dial_directory
  dial_directory-IsOrderly contract assigned = search (orderly) depth 8

  dial_incentives-IsOrderly :
      (assigned : List (Bytes × Bytes)) → IsOrderly net (dial_incentives c v t env u net assigned)
  unfolding dial_incentives
  dial_incentives-IsOrderly assigned = dial_directory-IsOrderly _ assigned

  fetch-IsOrderly :
      (stats : AdminStats) (endpoint : Bytes)
      → IsOrderly net (fetch_resolver_pub_key stats endpoint)
  unfolding fetch_resolver_pub_key
  fetch-IsOrderly stats endpoint = search (orderly) depth 8

  fetch_or_given-IsOrderly :
      (stats : AdminStats) (endpoint given : Bytes)
      → IsOrderly net
          (ite (Bytes-discrete given []) (fetch_resolver_pub_key stats endpoint) (give given))
  fetch_or_given-IsOrderly stats endpoint given = elim (Bytes-discrete given []) [
    | yes h ↦ rw (if_pos _ h) (fetch-IsOrderly stats endpoint)
    | no h ↦ rw (if_neg _ h) (give-IsOrderly net given)
  ]

  cmd_channel_open-IsOrderly :
      (args : List Bytes) → IsOrderly net (cmd_channel_open c v t env u net args)
  unfolding cmd_channel_open
  cmd_channel_open-IsOrderly args = search (orderly, dial_incentives-IsOrderly) depth 14

  cmd_voucher-IsOrderly : (args : List Bytes) → IsOrderly net (cmd_voucher c v t env u net args)
  unfolding cmd_voucher
  cmd_voucher-IsOrderly args = search (orderly, dial_incentives-IsOrderly) depth 14

  cmd_channel_claim-IsOrderly :
      (args : List Bytes) → IsOrderly net (cmd_channel_claim c v t env u net args)
  unfolding cmd_channel_claim
  cmd_channel_claim-IsOrderly args = search (orderly, dial_incentives-IsOrderly) depth 14

  cmd_channel_close-IsOrderly :
      (args : List Bytes) → IsOrderly net (cmd_channel_close c v t env u net args)
  unfolding cmd_channel_close
  cmd_channel_close-IsOrderly args = search (orderly, dial_incentives-IsOrderly) depth 14

  cmd_announce_resolver-IsOrderly :
      (stats : AdminStats) (args : List Bytes)
      → IsOrderly net (cmd_announce_resolver c v t env u net stats args)
  unfolding cmd_announce_resolver
  cmd_announce_resolver-IsOrderly stats args =
      search (orderly, fetch_or_given-IsOrderly, dial_directory-IsOrderly) depth 14

printed-IsOrderly :
    {A : Type 0} (net : Network) (m : Script A) → IsOrderly net m → IsOrderly net (printed m)
printed-IsOrderly net m h = >>=-IsOrderly net m _ h (λ a. give-IsOrderly net tt)

choose-IsOrderly :
    (net : Network) (command name : Bytes) (m n : Script (Unit {0}))
    → IsOrderly net m
    → IsOrderly net n
    → IsOrderly net (ite (Bytes-discrete command name) m n)
choose-IsOrderly net command name m n h k = elim (Bytes-discrete command name) [
  | yes e ↦ rw (if_pos _ e) h
  | no e ↦ rw (if_neg _ e) k
]

ruleset commands = (
  cmd_set-IsOrderly, cmd_remove-IsOrderly, cmd_transfer-IsOrderly, cmd_renew-IsOrderly,
  cmd_declare_type-IsOrderly, cmd_withdraw-IsOrderly, cmd_register-IsOrderly,
  cmd_publish_resource-IsOrderly, cmd_seed-IsOrderly, cmd_resolvers-IsOrderly,
  cmd_channel_open-IsOrderly, cmd_voucher-IsOrderly, cmd_channel_claim-IsOrderly,
  cmd_channel_close-IsOrderly, cmd_announce_resolver-IsOrderly, printed-IsOrderly, choose-IsOrderly,
  give-IsOrderly,
)

module _ (c : Secp) (o : SliceSort) (g : Gnark) (v : VoucherCrypto c) (t : Tools c)
    (env : Environment) (u : Unicode) (net : Network) (s : Seeder) (stats : AdminStats)
    (active : Option (List Announced)) where
  dispatch-IsOrderly :
      (command : Bytes) (args : List Bytes)
      → IsOrderly net (dispatch c o g v t env u net s stats active command args)
  unfolding dispatch
  dispatch-IsOrderly command args = search (commands, fails [] 2 tt) depth 30

  -- Every run of the command line is orderly: no transaction is submitted after one whose receipt
  -- does not confirm it, and a run that succeeds has submitted confirmed transactions only.
  pub main-IsOrderly :
      (argv : List Bytes) → IsOrderly net (main c o g v t env u net s stats active argv)
  unfolding main
  main-IsOrderly [] = fails [] 2 tt
  main-IsOrderly (command ∷ args) = dispatch-IsOrderly command args

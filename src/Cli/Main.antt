-- ===== src/Cli/Main.antt =====
-- The dispatch of resolver/cmd/ddns/main.go.
use decentralized_dns.Base.{Bytes, Bytes-discrete, List, [], ◌∷◌, Option, ite, codes}
use decentralized_dns.Base.Text.{Unicode}
use decentralized_dns.Config.Env.{Environment}
use decentralized_dns.Pki.Owner.{Secp, SliceSort}
use decentralized_dns.Pay.Voucher.{VoucherCrypto}
use decentralized_dns.Zk.Pack.{Gnark}
use decentralized_dns.Cli.Addresses.{Tools}
use decentralized_dns.Cli.Script.{Network, Script, exit, ◌>>=◌, give}
use decentralized_dns.Cli.Owner.{
  cmd_set, cmd_remove, cmd_transfer, cmd_renew, cmd_declare_type, cmd_withdraw, cmd_register,
}
use decentralized_dns.Cli.Channels.{
  AdminStats, cmd_channel_open, cmd_voucher, cmd_channel_claim, cmd_channel_close,
  cmd_announce_resolver,
}
use decentralized_dns.Cli.Publish.{Seeder, Announced, cmd_publish_resource, cmd_seed, cmd_resolvers}

-- a command whose value is printed
abbrev pub printed : {A : Type 0} → Script A → Script (Unit {0})
printed m = m >>= λ a. give tt

module _ (c : Secp) (o : SliceSort) (g : Gnark) (v : VoucherCrypto c) (t : Tools c)
    (env : Environment) (u : Unicode) (net : Network) (s : Seeder) (stats : AdminStats)
    (active : Option (List Announced)) where
  -- the switch of main over the name of a command
  unfoldable pub dispatch : Bytes → List Bytes → Script (Unit {0})
  dispatch command args =
      let is : Bytes → Script (Unit {0}) → Script (Unit {0}) → Script (Unit {0}) =
        λ name then_run otherwise. ite (Bytes-discrete command name) then_run otherwise in
      is (codes "register") (cmd_register c o g t env u net args) (
        is (codes "set") (cmd_set c o g t env u net args) (
          is (codes "remove") (cmd_remove c o g t env u net args) (
            is (codes "transfer") (cmd_transfer c o g t env u net args) (
              is (codes "renew") (cmd_renew c o g t env u net args) (
                is (codes "declare-type") (cmd_declare_type c o g t env u net args) (
                  is (codes "publish-resource") (cmd_publish_resource c o g t env u net s args) (
                    is (codes "seed") (printed (cmd_seed c o g t env u net s args)) (
                      is (codes "announce-resolver")
                        (cmd_announce_resolver c v t env u net stats args)
                        (is (codes "resolvers")
                          (printed (cmd_resolvers c o g t env u net s active args))
                          (is (codes "withdraw") (cmd_withdraw c o g t env u net args) (
                            is (codes "channel-open") (cmd_channel_open c v t env u net args) (
                              is (codes "voucher") (printed (cmd_voucher c v t env u net args)) (
                                is (codes "channel-claim") (cmd_channel_claim c v t env u net args)
                                  (is (codes "channel-close")
                                    (cmd_channel_close c v t env u net args)
                                    (is (codes "-h") (give tt) (
                                      is (codes "--help") (give tt)
                                        (is (codes "help") (give tt) (exit [] 2))))))))))))))))))

  -- main on the arguments after the program's name
  unfoldable pub main : List Bytes → Script (Unit {0})
  unfolding dispatch
  main [] = exit [] 2
  main (command ∷ args) = dispatch command args

-- ===== src/Cli/Publish.antt =====
-- publish-resource, seed and resolvers of resolver/cmd/ddns/main.go.
use decentralized_dns.Base.{
  ℕ, Bytes, Bytes-discrete, List, [], ◌∷◌, Bool, true, false, not, Option, none, some, ite, codes,
}
use decentralized_dns.Base.Text.{Unicode}
use decentralized_dns.Config.Env.{Environment}
use decentralized_dns.Pki.Owner.{Secp, SliceSort}
use decentralized_dns.Zk.Pack.{Gnark}
use decentralized_dns.Cli.Args.{flag_value}
use decentralized_dns.Cli.Addresses.{Tools, resolver_registry_addr}
use decentralized_dns.Cli.Owner.{
  FlagType, type_of, takes, text, uint, int, bool, no_switches, flag_set, number_value, ttl_flag,
  new_record, canonical, publish,
}
use decentralized_dns.Cli.Script.{
  Network, Script, ◌>>=◌, ◌>>◌, give, or_fatal, ensure, need_arg, parse_args, dial, generation_of,
  common_value, is_zero,
}

-- The file system, mime.TypeByExtension of a path's extension, http.DetectContentType, and the
-- torrent engine: whether it starts in a directory on a port, and the info hash and SHA-256 that it
-- seeds a file under.
pub record Seeder : Type 0 where
  pub type_by_extension : Bytes → Bytes
  pub read_head : Bytes → Option Bytes
  pub detect : Bytes → Bytes
  pub mkdir_temp : Option Bytes
  pub starts : Bytes → ℕ → Bool
  pub seed_file : Bytes → Option (Bytes × Bytes)

module _ (s : Seeder) where
  unfoldable pub detect_content_type : Bytes → Bytes
  detect_content_type path =
      ite (Bytes-discrete (s.type_by_extension path) [])
        (elim (s.read_head path) [
          | none ↦ codes "application/octet-stream"
          | some head ↦ s.detect head
        ])
        (s.type_by_extension path)

  -- the engine, in the given directory or in a new one, and the file that it seeds
  unfoldable pub seed : Bytes → ℕ → Bytes → Script (Bytes × Bytes)
  seed data_dir port file = do
    dir ← ite (Bytes-discrete data_dir []) (or_fatal s.mkdir_temp) (give data_dir)
    ensure (s.starts dir port)
    or_fatal (s.seed_file file)

abbrev pub resource_names : List Bytes
resource_names = codes "infoHash" ∷ codes "sha256" ∷ codes "contentType" ∷ []

-- one resolver of the directory: its endpoint, key and operator
abbrev pub Announced : Type 0
Announced = Bytes × Bytes × Bytes

module _ (c : Secp) (o : SliceSort) (g : Gnark) (t : Tools c) (env : Environment) (u : Unicode)
    (net : Network) (s : Seeder) where
  abbrev port_flag : List (Bytes × Bytes) → ℕ
  port_flag assigned = number_value c t t.parse_int (codes "bt-port") 42069 assigned

  -- the reordering of publish-resource knows its one Boolean flag
  abbrev pub anchor_only : Bytes → Bool
  anchor_only n = ite (Bytes-discrete n (codes "anchor-only")) true false

  -- cmdPublishResource up to the anchored record
  unfoldable pub cmd_publish_resource : List Bytes → Script (Unit {0})
  cmd_publish_resource args = do
    p ←
        parse_args anchor_only
          (flag_set c t (
            (codes "selector", text)
            ∷ (codes "ttl", uint)
            ∷ (codes "content-type", text)
            ∷ (codes "data-dir", text)
            ∷ (codes "bt-port", int)
            ∷ (codes "seconds", int)
            ∷ (codes "anchor-only", bool)
            ∷ []))
          args
    name ← need_arg p.1 0
    file ← need_arg p.1 1
    sel ← canonical c o g t env u net (flag_value (codes "selector") [] p.0)
    let given = flag_value (codes "content-type") [] p.0
    let ct = ite (Bytes-discrete given []) (detect_content_type s file) given
    made ← seed s (flag_value (codes "data-dir") [] p.0) (port_flag p.0) file
    conn ← dial c t env u net p.0 false
    generation ← generation_of c t env u net name
    publish c o g t env u net conn name (
        new_record c o g t env u net (codes "ResourceRef") sel resource_names
          (made.0 ∷ made.1 ∷ ct ∷ []) (ttl_flag c o g t env u net p.0) generation)

  -- the flags of cmdSeed, which has no common ones
  abbrev own_type : Bytes → Option FlagType
  own_type = type_of ((codes "bt-port", int) ∷ (codes "data-dir", text) ∷ [])

  unfoldable pub cmd_seed : List Bytes → Script (Bytes × Bytes)
  cmd_seed args = do
    p ←
        parse_args no_switches
          (record {
            formal = λ n. elim (own_type n) [ none ↦ none | some ty ↦ some false ];
            accepts = λ n v. elim (own_type n) [ none ↦ false | some ty ↦ takes c t ty v ];
          })
          args
    file ← need_arg p.1 0
    seed s (flag_value (codes "data-dir") [] p.0) (port_flag p.0) file

  -- What resolvers prints: the active resolvers of the directory, as the contract lists them.
  unfoldable pub cmd_resolvers : Option (List Announced) → List Bytes → Script (List Announced)
  cmd_resolvers active args = do
    p ← parse_args no_switches (flag_set c t ((codes "resolver-registry", text) ∷ [])) args
    ensure (
        not (
          is_zero c t env u net (
            resolver_registry_addr c t env (common_value c t env u net (codes "deployments") p.0)
              (flag_value (codes "resolver-registry") [] p.0))))
    ensure (net.connects (common_value c t env u net (codes "rpc") p.0))
    or_fatal active

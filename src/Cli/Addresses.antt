-- ===== src/Cli/Addresses.antt =====
-- resolverRegistryAddr, incentivesAddr, resolveAddrs and loadKey of resolver/cmd/ddns: where the
-- command line finds the contracts and the owner's key.
use decentralized_dns.Base.{
  ℕ, Bytes, Bytes-discrete, List, [], ◌∷◌, Bool, Option, none, some, ite, codes, replicate, ◌≡◌,
  ◌≢◌, ap, ◌∙◌, arith,
}
use decentralized_dns.Base.Text.{Unicode, trim_space}
use decentralized_dns.Config.Env.{Environment, getenv, trim_prefix}
use decentralized_dns.Pki.Owner.{Secp}

-- common.Address{}
abbrev pub zero_address : Bytes
zero_address = replicate 20 0

-- go-ethereum's readings of hexadecimal texts, Go's strconv.ParseUint in any base and
-- time.ParseDuration in seconds, net/http and the file system; `none` is an error.
-- A negative number or duration, which the flags accept, has no value here.
pub record Tools (c : Secp) : Type 0 where
  pub hex_to_address : Bytes → Bytes
  pub is_hex_address : Bytes → Bool
  pub from_hex : Bytes → Bytes
  pub hex_decode : Bytes → Option Bytes
  pub hex_to_ecdsa : Bytes → Option c.PrivateKey
  pub parse_uint : Bytes → Option ℕ
  pub parse_int : Bytes → Option ℕ
  pub parse_duration : Bytes → Option ℕ
  pub read_file : Bytes → Option Bytes
  -- json.Unmarshal of a deploy artifact: the named contract's address, "" if it has none
  pub contract_of : Bytes → Bytes → Option Bytes
  -- the pair of addresses that resolveAddrs reads
  pub contracts_of : Bytes → Option (Bytes × Bytes)

-- envOr
unfoldable pub env_or : Environment → Bytes → Bytes → Bytes
env_or env key default = ite (Bytes-discrete (getenv env key) []) default (getenv env key)

module _ (c : Secp) (t : Tools c) (env : Environment) where
  -- the address of a text that is not empty, and otherwise what is given
  abbrev pub address_or : Bytes → Bytes → Bytes
  address_or text default = ite (Bytes-discrete text []) default (t.hex_to_address text)

  -- The address that an artifact names for a contract; "" is none.
  unfoldable pub artifact_text : Bytes → Bytes → Bytes
  artifact_text contract path = ite (Bytes-discrete path []) [] (elim (t.read_file path) [
    | none ↦ []
    | some text ↦ elim (t.contract_of contract text) [ none ↦ [] | some a ↦ a ]
  ])

  -- resolverRegistryAddr and incentivesAddr: a contract, its variable, the artifact and the flag
  unfoldable pub directory_addr : Bytes → Bytes → Bytes → Bytes → Bytes
  unfolding artifact_text
  directory_addr contract variable path flag_text =
      address_or flag_text
        (address_or (artifact_text contract path) (address_or (getenv env variable) zero_address))

  unfoldable pub resolver_registry_addr : Bytes → Bytes → Bytes
  unfolding directory_addr
  resolver_registry_addr =
      directory_addr (codes "ResolverRegistry") (codes "RESOLVER_REGISTRY_ADDRESS")

  unfoldable pub incentives_addr : Bytes → Bytes → Bytes
  unfolding directory_addr
  incentives_addr =
      directory_addr (codes "ResolverIncentives") (codes "RESOLVER_INCENTIVES_ADDRESS")

  -- an address that is still zero is replaced by a text's, if that is not empty
  abbrev pub unless_known : Bytes → Bytes → Bytes
  unless_known address text =
      ite (Bytes-discrete address zero_address) (address_or text address) address

  unfoldable pub read_pair : Bytes → Bytes × Bytes
  read_pair path =
      ite (Bytes-discrete path []) ([], [])
        (elim (t.read_file path) [
          | none ↦ ([], [])
          | some text ↦ elim (t.contracts_of text) [ none ↦ ([], []) | some p ↦ p ]
        ])

  -- The artifact is read if an address is missing.
  unfoldable pub artifact_texts : Bytes → Bytes → Bytes → Bytes × Bytes
  artifact_texts path ns reg =
      ite (Bytes-discrete ns zero_address) (read_pair path)
        (ite (Bytes-discrete reg zero_address) (read_pair path) ([], []))

  abbrev complete : Bytes → Bytes → Bytes × Bytes → Bytes × Bytes
  complete ns reg (ns_text, reg_text) = (
    unless_known (unless_known ns ns_text) (getenv env (codes "CONTRACT_ADDRESS")),
    unless_known (unless_known reg reg_text) (getenv env (codes "REGISTRY_ADDRESS")),
  )

  unfoldable pub resolve_addrs : Bytes → Bytes → Bytes → Bytes × Bytes
  unfolding read_pair artifact_texts
  resolve_addrs path ns_flag reg_flag =
      let ns = address_or ns_flag zero_address in
      let reg = address_or reg_flag zero_address in complete ns reg (artifact_texts path ns reg)

  -- loadKey; `none` is an exit.
  unfoldable pub load_key : Unicode → Bytes → Option c.PrivateKey
  load_key u flag_text =
      let raw =
        ite (Bytes-discrete flag_text []) (getenv env (codes "DDNS_PRIVATE_KEY")) flag_text in
      ite (Bytes-discrete raw []) none
        (t.hex_to_ecdsa (trim_prefix (trim_space u raw) (codes "0x")))

  -- the address of the first text that gives one that is not zero
  abbrev pub first_known : List Bytes → Bytes
  first_known [] = zero_address
  first_known (text ∷ texts) = ite (Bytes-discrete text []) (first_known texts) (
      ite (Bytes-discrete (t.hex_to_address text) zero_address) (first_known texts)
        (t.hex_to_address text))

  unless_known-first_known :
      (a b d : Bytes)
      → unless_known (unless_known (address_or a zero_address) b) d ≡ first_known (a ∷ b ∷ d ∷ [])
  unless_known-first_known a b d = ground arith

  unless_known-known :
      (a b d : Bytes)
      → address_or a zero_address ≢ zero_address
      → unless_known (unless_known (address_or a zero_address) []) d ≡ first_known (a ∷ b ∷ d ∷ [])
  unless_known-known a b d h = ground arith

  artifact_texts-ns :
      (path ns reg : Bytes) → ns ≡ zero_address → artifact_texts path ns reg ≡ read_pair path
  unfolding artifact_texts
  artifact_texts-ns path ns reg h = ground arith

  artifact_texts-reg :
      (path ns reg : Bytes) → reg ≡ zero_address → artifact_texts path ns reg ≡ read_pair path
  unfolding artifact_texts
  artifact_texts-reg path ns reg h = ground arith

  artifact_texts-known :
      (path ns reg : Bytes)
      → ns ≢ zero_address
      → reg ≢ zero_address
      → artifact_texts path ns reg ≡ ([], [])
  unfolding artifact_texts
  artifact_texts-known path ns reg h k = ground arith

  -- `resolveAddrs` takes each of its two addresses, on its own, from the first of the flag, the
  -- deploy artifact and the environment variable that gives one that is not zero.
  pub resolve_addrs-first_known :
      (path ns_flag reg_flag : Bytes)
      → resolve_addrs path ns_flag reg_flag ≡ (
        first_known (ns_flag ∷ (read_pair path).0 ∷ getenv env (codes "CONTRACT_ADDRESS") ∷ []),
        first_known (reg_flag ∷ (read_pair path).1 ∷ getenv env (codes "REGISTRY_ADDRESS") ∷ []),
      )
  unfolding resolve_addrs
  resolve_addrs-first_known path ns_flag reg_flag =
      let ns = address_or ns_flag zero_address in
      let reg = address_or reg_flag zero_address in
      let contract = getenv env (codes "CONTRACT_ADDRESS") in
      let registry = getenv env (codes "REGISTRY_ADDRESS") in
      let read : complete ns reg (read_pair path) ≡ (
        first_known (ns_flag ∷ (read_pair path).0 ∷ contract ∷ []),
        first_known (reg_flag ∷ (read_pair path).1 ∷ registry ∷ []),
      ) =
        λ i. (
          unless_known-first_known ns_flag (read_pair path).0 contract i,
          unless_known-first_known reg_flag (read_pair path).1 registry i,
        ) in
      elim (Bytes-discrete ns zero_address) [
        | yes p ↦ ap (complete ns reg) (artifact_texts-ns path ns reg p) ∙ read
        | no p ↦ elim (Bytes-discrete reg zero_address) [
          | yes q ↦ ap (complete ns reg) (artifact_texts-reg path ns reg q) ∙ read
          | no q ↦ ap (complete ns reg) (artifact_texts-known path ns reg p q) ∙ λ i. (
            unless_known-known ns_flag (read_pair path).0 contract p i,
            unless_known-known reg_flag (read_pair path).1 registry q i,
          )
        ]
      ]

-- ===== src/Config/FromEnv.antt =====
-- FromEnv of resolver/internal/config/config.go: the settings, and where the contract addresses are from.
use decentralized_dns.Base.{
  Bytes, Bytes-discrete, List, [], ◌∷◌, Bool, true, false, ◌||◌, Option, some, ite, if◌then◌else◌,
  if_neg, codes, ◌≡◌, ◌≢◌, refl, sym, ap, ◌∙◌, subst,
}
use decentralized_dns.Base.Text.{Unicode, to_lower, has_prefix}
use decentralized_dns.Config.Env.{
  Environment, getenv, load_dot_env, get_env, get_env_bool, Deployments, Files, load_deployments,
  no_deployments,
}
use decentralized_dns.Config.Validation.{
  Numbers, numbers_from_env, IsUsable, bind, bind-some, numbers_from_env-IsUsable,
}

pub record Config : Type 0 where
  pub rpc_url : Bytes
  pub contract_address : Bytes
  pub registry_address : Bytes
  pub keystore_path : Bytes
  pub data_dir : Bytes
  pub allow_peer_hints : Bool
  pub enforce_type : Bool
  pub enable_showcase : Bool
  pub resolver_registry_address : Bytes
  pub resolver_incentives_address : Bytes
  pub numbers : Numbers

-- strings.Contains
unfoldable pub contains : Bytes → Bytes → Bool
contains [] part = has_prefix [] part
contains (c ∷ cs) part = has_prefix (c ∷ cs) part || contains cs part

abbrev empty : Bytes → Bool
empty s = ite (Bytes-discrete s []) true false

-- the deploy artifacts to look for, in the order of the network
unfoldable pub candidates : Bool → List Bytes
candidates true =
    codes "contracts/deployments/sepolia.json"
    ∷ codes "../contracts/deployments/sepolia.json"
    ∷ codes "contracts/deployments/localhost.json"
    ∷ codes "../contracts/deployments/localhost.json"
    ∷ []
candidates false =
    codes "contracts/deployments/localhost.json"
    ∷ codes "../contracts/deployments/localhost.json"
    ∷ codes "contracts/deployments/sepolia.json"
    ∷ codes "../contracts/deployments/sepolia.json"
    ∷ []

-- the first candidate that os.Stat finds; "" is none.
unfoldable pub first_there : (Bytes → Bool) → List Bytes → Bytes
first_there stat [] = []
first_there stat (p ∷ ps) = if stat p then p else first_there stat ps

module _ (u : Unicode) (f : Files) (stat : Bytes → Bool) where
  unfoldable pub is_sepolia : Environment → Bytes → Bool
  is_sepolia env rpc_url =
      contains (to_lower u rpc_url) (codes "sepolia")
      || ite (Bytes-discrete (getenv env (codes "DDNS_NETWORK")) (codes "sepolia")) true false

  unfoldable pub deployments_path : Environment → Bytes → Bytes
  deployments_path env rpc_url =
      let named = get_env env (codes "DEPLOYMENTS") (get_env env (codes "DDNS_DEPLOYMENTS") []) in
      ite (Bytes-discrete named []) (first_there stat (candidates (is_sepolia env rpc_url))) named

  -- what the artifact gives; it is read if an address is not set, or for the showcase.
  unfoldable pub artifact : Environment → Bytes → Bool → Deployments
  artifact env rpc_url showcase =
      if empty (getenv env (codes "CONTRACT_ADDRESS"))
        || (empty (getenv env (codes "REGISTRY_ADDRESS")) || showcase)
      then load_deployments f (deployments_path env rpc_url)
      else no_deployments

  unfoldable pub settings : Environment → Numbers → Config
  settings env numbers =
      let rpc_url = get_env env (codes "RPC_URL") (codes "http://127.0.0.1:8545") in
      let showcase = get_env_bool u env (codes "ENABLE_SHOWCASE") false in
      let found = artifact env rpc_url showcase in
      record {
        rpc_url = rpc_url;
        contract_address = get_env env (codes "CONTRACT_ADDRESS") found.namespace;
        registry_address = get_env env (codes "REGISTRY_ADDRESS") found.registry;
        keystore_path = get_env env (codes "RESOLVER_KEYSTORE") (codes "resolver.key");
        data_dir = get_env env (codes "DATA_DIR") (codes "./data");
        allow_peer_hints = get_env_bool u env (codes "ALLOW_PEER_HINTS") false;
        enforce_type = get_env_bool u env (codes "ENFORCE_CONTENT_TYPE") false;
        enable_showcase = showcase;
        resolver_registry_address = found.resolver_registry;
        resolver_incentives_address = found.resolver_incentives;
        numbers = numbers;
      }

  -- FromEnv, with the lines of the .env file; `none` is an error.
  unfoldable pub from_env : Environment → List Bytes → Option Config
  from_env env lines =
      let known = load_dot_env u env lines in
      bind (numbers_from_env known) (λ numbers. some (settings known numbers))

  contract_address-settings :
      (env : Environment) (numbers : Numbers)
      → getenv env (codes "CONTRACT_ADDRESS") ≢ []
      → (settings env numbers).contract_address ≡ getenv env (codes "CONTRACT_ADDRESS")
  unfolding settings get_env
  contract_address-settings env numbers ne =
      if_neg (Bytes-discrete (getenv env (codes "CONTRACT_ADDRESS")) []) ne _ _

  numbers-settings : (env : Environment) (n : Numbers) → (settings env n).numbers ≡ n
  unfolding settings
  numbers-settings env n = refl

  -- A configuration that `FromEnv` accepts has usable numbers, and a contract address that the
  -- environment or the .env file sets is not replaced by that of a deploy artifact.
  pub from_env-IsUsable :
      (env : Environment) (lines : List Bytes) (cfg : Config)
      → from_env env lines ≡ some cfg
      → IsUsable cfg.numbers
        × (getenv (load_dot_env u env lines) (codes "CONTRACT_ADDRESS") ≢ []
            → cfg.contract_address ≡ getenv (load_dot_env u env lines) (codes "CONTRACT_ADDRESS"))
  unfolding from_env
  from_env-IsUsable env lines cfg h =
      let known = load_dot_env u env lines in
      let (numbers, accepted, made) = bind-some (numbers_from_env known) _ cfg h in
      let shape : settings known numbers ≡ cfg = cc made in
      (
        subst IsUsable (sym (numbers-settings known numbers) ∙ ap (λ (k : Config). k.numbers) shape)
            (numbers_from_env-IsUsable known numbers accepted),
        λ ne.
            ap (λ (k : Config). k.contract_address) (sym shape)
            ∙ contract_address-settings known numbers ne,
      )

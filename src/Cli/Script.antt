-- ===== src/Cli/Script.antt =====
-- The plumbing of resolver/cmd/ddns/main.go: what a command submits to the chain, and how it exits.
use decentralized_dns.Base.{
  ℕ, Bytes, Bytes-discrete, List, [], ◌∷◌, ◌++◌, Bool, true, false, ◌||◌, not, Option, none, some,
  ite, codes, get_elem?,
}
use decentralized_dns.Base.Text.{Unicode}
use decentralized_dns.Config.Env.{Environment}
use decentralized_dns.Chain.Types.{Domain}
use decentralized_dns.Pki.Owner.{Secp}
use decentralized_dns.Cli.Args.{FlagSet, parsed, exited, flag_value, reorder, parse}
use decentralized_dns.Cli.Addresses.{Tools, zero_address, env_or, load_key, resolve_addrs}

-- the transactions of the commands: the contract method with its arguments, and the value paid
pub data Tx : Type 0 where
  commit : Bytes → Tx
  register : Bytes → Bytes → Bytes → ℕ → Tx
  set_record : Bytes → Bytes → Bytes → List Bytes → List Bytes → ℕ → Bytes → Bytes → Tx
  remove_record : Bytes → Bytes → Bytes → Tx
  transfer : Bytes → Bytes → Bytes → Tx
  renew : Bytes → ℕ → Tx
  declare_type : Bytes → List Bytes → List Bytes → Tx
  withdraw : Bytes → Tx
  announce : Bytes → Bytes → Tx
  open_channel : Bytes → ℕ → ℕ → Tx
  claim : Bytes → ℕ → Bytes → Tx
  close_channel : Bytes → Tx

-- what becomes of a submitted transaction
pub data Sent : Type 0 where
  refused unmined reverted confirmed : Sent

-- What the node answers to one run of a command: whether the client, its chain ID, the transactor
-- and the bindings are made for a URL, and the calls of the contracts; `none` is an error.
pub record Network : Type 0 where
  pub connects : Bytes → Bool
  pub get_domain : Bytes → Option Domain
  pub price_of : Bytes → Option ℕ
  pub make_commitment : Bytes → Bytes → Bytes → Bytes → Option Bytes
  pub min_commitment_age : Option ℕ
  pub random : Option Bytes
  pub submit : Tx → Sent

-- A run of a command: the transactions that it submitted, with a value or the code that it exits with.
pub data Script {ℓ} (A : Type ℓ) : Type ℓ where
  ran : List Tx → A → Script A
  exit : List Tx → ℕ → Script A

abbrev pub after {ℓ} : {A : Type ℓ} → List Tx → Script A → Script A
after txs (ran more a) = ran (txs ++ more) a
after txs (exit more code) = exit (txs ++ more) code

infixl 5 ◌>>=◌ ◌>>◌
unfoldable pub ◌>>=◌ {ℓ κ} : {A : Type ℓ} {B : Type κ} → Script A → (A → Script B) → Script B
ran txs a >>= next = after txs (next a)
exit txs code >>= next = exit txs code

abbrev pub ◌>>◌ {ℓ} : {B : Type ℓ} → Script (Unit {0}) → Script B → Script B
m >> k = m >>= λ _. k

abbrev pub give {ℓ} : {A : Type ℓ} → A → Script A
give a = ran [] a

-- fatal on an error that is not nil
unfoldable pub or_fatal {ℓ} : {A : Type ℓ} → Option A → Script A
or_fatal none = exit [] 1
or_fatal (some a) = ran [] a

-- a check that is fatal where it fails
unfoldable pub ensure : Bool → Script (Unit {0})
ensure true = ran [] tt
ensure false = exit [] 1

unfoldable pub need_arg : List Bytes → ℕ → Script Bytes
need_arg rest i = elim (get_elem? rest i) [ none ↦ exit [] 2 | some a ↦ ran [] a ]

-- reorder, and Parse under ExitOnError
unfoldable pub parse_args :
    (Bytes → Bool) → FlagSet → List Bytes → Script (List (Bytes × Bytes) × List Bytes)
unfolding reorder parse
parse_args bools f args = elim (parse f (reorder bools args)) [
  | exited code ↦ exit [] code
  | parsed assigned rest ↦ ran [] (assigned, rest)
]

-- send, without its messages
unfoldable pub send : Network → Tx → Script (Unit {0})
send net tx = elim (net.submit tx) [
  | refused ↦ exit [] 1
  | unmined ↦ exit (tx ∷ []) 1
  | reverted ↦ exit (tx ∷ []) 1
  | confirmed ↦ ran (tx ∷ []) tt
]

module _ (c : Secp) (t : Tools c) (env : Environment) (u : Unicode) (net : Network) where
  -- conn: the key and its address; the contracts are those that the network answers for.
  pub record Conn : Type 0 where
    pub key : c.PrivateKey
    pub from : Bytes

  -- the flags that addCommon declares, with their defaults
  unfoldable pub common_value : Bytes → List (Bytes × Bytes) → Bytes
  unfolding env_or flag_value
  common_value name assigned =
      flag_value name
        (ite (Bytes-discrete name (codes "rpc"))
          (env_or env (codes "RPC_URL") (codes "http://127.0.0.1:8545"))
          (ite (Bytes-discrete name (codes "deployments"))
            (env_or env (codes "DDNS_DEPLOYMENTS") (codes "contracts/deployments/localhost.json"))
            []))
        assigned

  abbrev pub is_zero : Bytes → Bool
  is_zero a = ite (Bytes-discrete a zero_address) true false

  unfoldable pub dial : List (Bytes × Bytes) → Bool → Script Conn
  unfolding common_value resolve_addrs load_key
  dial assigned need_registry = do
    key ← or_fatal (load_key c t env u (common_value (codes "key") assigned))
    let addrs =
        resolve_addrs c t env (common_value (codes "deployments") assigned)
          (common_value (codes "namespace") assigned) (common_value (codes "registry") assigned)
    ensure (not (is_zero addrs.0))
    ensure (not need_registry || not (is_zero addrs.1))
    ensure (net.connects (common_value (codes "rpc") assigned))
    give (record { key = key; from = c.pubkey_to_address (c.public_key key) })

  unfoldable pub generation_of : Bytes → Script ℕ
  generation_of name = do
    dom ← or_fatal (net.get_domain name)
    ensure (not (is_zero dom.owner))
    give dom.generation

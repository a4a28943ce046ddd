-- ===== src/Config/Env.antt =====
-- resolver/internal/config/config.go: the environment, the .env file and the deploy artifact.
use decentralized_dns.Base.{
  ℕ, Bytes, Bytes-discrete, List, [], ◌∷◌, ◌++◌, Bool, true, false, not, all_of, ◌&&◌, ◌||◌, ◌==◌,
  ltb, leb, Option, none, some, ite, if◌then◌else◌, codes, drop, length,
}
use decentralized_dns.Base.Ints.{ℤ, pos, negsuc}
use decentralized_dns.Base.Text.{Unicode, trim_space, to_lower, has_prefix, cut, atoi}
use decentralized_dns.Query.Selector.{one_of}

-- the process environment: os.LookupEnv, and os.Getenv with "" for what is not set
abbrev pub Environment : Type 0
Environment = Bytes → Option Bytes

abbrev pub getenv : Environment → Bytes → Bytes
getenv env key = elim (env key) [ none ↦ [] | some v ↦ v ]

-- a byte of a C string
abbrev is_c_byte : ℕ → Bool
is_c_byte b = not (b == 0)

-- os.Setenv whose error is ignored: a key that is empty or has a `=` or a NUL, or a value with a NUL,
-- sets nothing.
unfoldable pub settable : Bytes → Bytes → Bool
settable key v =
    ltb 0 (length key)
    && all_of is_c_byte key
    && all_of (λ b. not (b == b'=')) key
    && all_of is_c_byte v

abbrev pub setenv : Environment → Bytes → Bytes → Environment
setenv env key v k = if settable key v then ite (Bytes-discrete k key) (some v) (env k) else env k

abbrev pub trim_prefix : Bytes → Bytes → Bytes
trim_prefix s p = if has_prefix s p then drop (length p) s else s

-- strings.Trim(s, "\"'")
unfoldable pub trim_quotes_left : Bytes → Bytes
trim_quotes_left [] = []
trim_quotes_left (c ∷ cs) = if (c == 34) || (c == 39) then trim_quotes_left cs else c ∷ cs

unfoldable pub trim_quotes_right : Bytes → Bytes
trim_quotes_right [] = []
trim_quotes_right (c ∷ cs) =
    let rest = trim_quotes_right cs in
    elim rest [ [] ↦ if (c == 34) || (c == 39) then [] else c ∷ [] | d ∷ ds ↦ c ∷ d ∷ ds ]

-- what a line of the .env file sets, if it sets anything
unfoldable pub dotenv_pair : Unicode → Bytes → Option (Bytes × Bytes)
unfolding trim_quotes_left trim_quotes_right
dotenv_pair u text =
    let line = trim_space u text in
    if ite (Bytes-discrete line []) true (has_prefix line (codes "#"))
    then none
    else elim (cut b'=' (trim_prefix line (codes "export "))) [
      | none ↦ none
      | some (k, v) ↦
          ite (Bytes-discrete (trim_space u k) []) none
            (some (trim_space u k, trim_quotes_left (trim_quotes_right (trim_space u v))))
    ]

-- loadDotEnv over the lines of the file; a missing file has none.
unfoldable pub load_dot_env : Unicode → Environment → List Bytes → Environment
unfolding dotenv_pair
load_dot_env u env [] = env
load_dot_env u env (line ∷ lines) = elim (dotenv_pair u line) [
  | none ↦ load_dot_env u env lines
  | some (k, v) ↦ elim (env k) [
    | none ↦ load_dot_env u (setenv env k v) lines
    | some old ↦ load_dot_env u env lines
  ]
]

unfoldable pub get_env : Environment → Bytes → Bytes → Bytes
get_env env key default = ite (Bytes-discrete (getenv env key) []) default (getenv env key)

-- `none` is an error.
unfoldable pub get_env_int : Environment → Bytes → ℤ → Option ℤ
get_env_int env key default =
    ite (Bytes-discrete (getenv env key) []) (some default) (atoi (getenv env key))

-- whether an integer is from `lo` to 65535
abbrev pub in_port_range : ℕ → ℤ → Bool
in_port_range lo (pos n) = leb lo n && leb n 65535
in_port_range lo (negsuc n) = false

abbrev pub is_positive : ℤ → Bool
is_positive (pos n) = ltb 0 n
is_positive (negsuc n) = false

abbrev pub check_int : (ℤ → Bool) → Option ℤ → Option ℤ
check_int good none = none
check_int good (some n) = if good n then some n else none

unfoldable pub get_env_port : Environment → Bytes → ℤ → Option ℤ
unfolding get_env_int
get_env_port env key default = check_int (in_port_range 1) (get_env_int env key default)

unfoldable pub get_env_bool : Unicode → Environment → Bytes → Bool → Bool
get_env_bool u env key default =
    let v = trim_space u (to_lower u (getenv env key)) in
    ite (Bytes-discrete v []) default
      (one_of (codes "1" ∷ codes "true" ∷ codes "yes" ∷ codes "on" ∷ []) v)

-- the four addresses of a deploy artifact
pub record Deployments : Type 0 where
  pub namespace : Bytes
  pub registry : Bytes
  pub resolver_registry : Bytes
  pub resolver_incentives : Bytes

abbrev pub no_deployments : Deployments
no_deployments = record {
  namespace = [];
  registry = [];
  resolver_registry = [];
  resolver_incentives = [];
}

-- os.ReadFile, and json.Unmarshal into the document of addresses
pub record Files : Type 0 where
  pub read_file : Bytes → Option Bytes
  pub unmarshal : Bytes → Option Deployments

abbrev pub or_else : Option Bytes → Option Bytes → Option Bytes
or_else none second = second
or_else (some x) second = some x

unfoldable pub load_deployments : Files → Bytes → Deployments
load_deployments f path =
    ite (Bytes-discrete path []) no_deployments
      (elim (or_else (f.read_file path) (
        if has_prefix path (codes "../")
        then f.read_file (trim_prefix path (codes "../"))
        else f.read_file (codes "../" ++ path))) [
          | none ↦ no_deployments
          | some text ↦ elim (f.unmarshal text) [ none ↦ no_deployments | some d ↦ d ]
        ])

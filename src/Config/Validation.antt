-- ===== src/Config/Validation.antt =====
-- FromEnv of resolver/internal/config/config.go on its numbers, and the .env file against the
-- environment.
use decentralized_dns.Base.{
  Bytes, List, [], ◌∷◌, Bool, true, false, ◌&&◌, Option, none, some, if◌then◌else◌, codes, ◌≡◌,
  refl, subst, arith, Option-cases, inl, inr,
}
use decentralized_dns.Base.Ints.{ℤ, pos}
use decentralized_dns.Base.Text.{Unicode}
use decentralized_dns.Config.Env.{
  Environment, setenv, dotenv_pair, load_dot_env, get_env_int, get_env_port, check_int,
  in_port_range, is_positive,
}

-- the numbers of Config
pub record Numbers : Type 0 where
  pub rest_port : ℤ
  pub udp_port : ℤ
  pub bt_listen_port : ℤ
  pub cache_size : ℤ
  pub rate_rps : ℤ
  pub rate_burst : ℤ

abbrev pub bind : {A B : Type 0} → Option A → (A → Option B) → Option B
bind none f = none
bind (some a) f = f a

-- the second half of FromEnv; `none` is an error.
unfoldable pub numbers_from_env : Environment → Option Numbers
unfolding get_env_port get_env_int
numbers_from_env env = bind (get_env_port env (codes "REST_PORT") (pos 8080)) (λ rest.
    bind (get_env_port env (codes "UDP_PORT") (pos 5354)) (λ udp.
      bind (check_int (in_port_range 0) (get_env_int env (codes "BT_LISTEN_PORT") (pos 42069)))
        (λ bt.
          bind (check_int is_positive (get_env_int env (codes "CACHE_SIZE") (pos 4096))) (λ size.
            bind (get_env_int env (codes "RATE_RPS") (pos 20)) (λ rps.
              bind (get_env_int env (codes "RATE_BURST") (pos 40)) (λ burst.
                if is_positive rps && is_positive burst
                then some (record {
                  rest_port = rest;
                  udp_port = udp;
                  bt_listen_port = bt;
                  cache_size = size;
                  rate_rps = rps;
                  rate_burst = burst;
                })
                else none))))))

pub record IsUsable (n : Numbers) : Type 0 where
  pub rest_ok : in_port_range 1 n.rest_port ≡ true
  pub udp_ok : in_port_range 1 n.udp_port ≡ true
  pub bt_ok : in_port_range 0 n.bt_listen_port ≡ true
  pub cache_ok : is_positive n.cache_size ≡ true
  pub rps_ok : is_positive n.rate_rps ≡ true
  pub burst_ok : is_positive n.rate_burst ≡ true

pub bind-some :
    {A B : Type 0} (m : Option A) (f : A → Option B) (b : B)
    → bind m f ≡ some b
    → (a : A) × (m ≡ some a) × (f a ≡ some b)
bind-some none f b h = cc
bind-some (some a) f b h = (a, refl, h)

check_int-some :
    (good : ℤ → Bool) (m : Option ℤ) (n : ℤ) → check_int good m ≡ some n → good n ≡ true
check_int-some good none n h = cc
check_int-some good (some k) n h = ground arith

both_positive :
    (a b : Bool) (x y : Numbers)
    → (if a && b then some x else none) ≡ some y
    → ((a ≡ true) × (b ≡ true)) × (x ≡ y)
both_positive true true x y h = ((refl, refl), cc)
both_positive true false x y h = cc
both_positive false b x y h = cc

-- The numbers of a configuration that `FromEnv` accepts are usable: listening ports from 1 to 65535, a
-- torrent port from 0 to 65535, and a positive cache size, rate and burst.
pub numbers_from_env-IsUsable :
    (env : Environment) (n : Numbers) → numbers_from_env env ≡ some n → IsUsable n
unfolding numbers_from_env get_env_port
numbers_from_env-IsUsable env n h =
    let (rest, e1, h1) = bind-some (get_env_port env (codes "REST_PORT") (pos 8080)) _ n h in
    let (udp, e2, h2) = bind-some (get_env_port env (codes "UDP_PORT") (pos 5354)) _ n h1 in
    let (bt, e3, h3) =
      bind-some (check_int (in_port_range 0) (get_env_int env (codes "BT_LISTEN_PORT") (pos 42069)))
        _ n h2 in
    let (size, e4, h4) =
      bind-some (check_int is_positive (get_env_int env (codes "CACHE_SIZE") (pos 4096))) _ n h3 in
    let (rps, e5, h5) = bind-some (get_env_int env (codes "RATE_RPS") (pos 20)) _ n h4 in
    let (burst, e6, h6) = bind-some (get_env_int env (codes "RATE_BURST") (pos 40)) _ n h5 in
    let (rates, shape) = both_positive (is_positive rps) (is_positive burst) _ n h6 in
    subst IsUsable shape (record {
      rest_ok =
          check_int-some (in_port_range 1) (get_env_int env (codes "REST_PORT") (pos 8080)) rest e1;
      udp_ok =
          check_int-some (in_port_range 1) (get_env_int env (codes "UDP_PORT") (pos 5354)) udp e2;
      bt_ok =
          check_int-some (in_port_range 0) (get_env_int env (codes "BT_LISTEN_PORT") (pos 42069)) bt
            e3;
      cache_ok =
          check_int-some is_positive (get_env_int env (codes "CACHE_SIZE") (pos 4096)) size e4;
      rps_ok = rates.0;
      burst_ok = rates.1;
    })

-- The .env file sets no variable that the environment has.
pub load_dot_env-kept :
    (u : Unicode) (env : Environment) (lines : List Bytes) (key v : Bytes)
    → env key ≡ some v
    → load_dot_env u env lines key ≡ some v
unfolding load_dot_env
load_dot_env-kept u env [] key v h = h
load_dot_env-kept u env (line ∷ lines) key v h = elim (Option-cases (dotenv_pair u line)) [
  | inl e ↦ rw (e, load_dot_env) (load_dot_env-kept u env lines key v h)
  | inr (p, e) ↦ elim (Option-cases (env p.0)) [
    | inl f ↦
        let still : setenv env p.0 p.1 key ≡ some v = ground (arith, f) in
        rw (e, load_dot_env, f) (load_dot_env-kept u (setenv env p.0 p.1) lines key v still)
    | inr (old, f) ↦ rw (e, load_dot_env, f) (load_dot_env-kept u env lines key v h)
  ]
]

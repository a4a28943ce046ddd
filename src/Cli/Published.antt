-- ===== src/Cli/Published.antt =====
-- What `ddns set` of resolver/cmd/ddns/main.go writes, against how a resolver judges it.
use decentralized_dns.Base.{
  ℕ, Bytes, List, [], ◌∷◌, Bool, true, false, Option, none, some, get_elem?, ◌≡◌, refl, sym, ◌∙◌,
  subst, arith,
}
use decentralized_dns.Base.Text.{Unicode}
use decentralized_dns.Config.Env.{Environment}
use decentralized_dns.Chain.Types.{Domain}
use decentralized_dns.Query.Selector.{Result, ok, err, parse_selector_string}
use decentralized_dns.Pki.Owner.{Secp, SliceSort}
use decentralized_dns.Zk.Pack.{Gnark}
use decentralized_dns.Cli.Args.{FlagSet, parsed, exited, parse, reorder}
use decentralized_dns.Cli.Addresses.{Tools}
use decentralized_dns.Cli.Script.{
  Tx, Network, Script, ran, exit, after, ◌>>=◌, give, or_fatal, ensure, need_arg, parse_args, send,
  dial, generation_of,
}
use decentralized_dns.Cli.Owner.{canonical}

-- a run that submits nothing before it gives its value
pub data IsQuiet {A : Type 0} : Script A → Type 0 where
  gives : (a : A) → IsQuiet (ran [] a)
  exits : (txs : List Tx) (code : ℕ) → IsQuiet (exit txs code)

after_nil : {A : Type 0} (m : Script A) → after [] m ≡ m
after_nil (ran txs a) = refl
after_nil (exit txs code) = refl

>>=-IsQuiet :
    {A B : Type 0} (m : Script A) (f : A → Script B)
    → IsQuiet m
    → ((a : A) → IsQuiet (f a))
    → IsQuiet (m >>= f)
unfolding ◌>>=◌
>>=-IsQuiet _ f (gives a) k = subst IsQuiet (sym (after_nil (f a))) (k a)
>>=-IsQuiet _ f (exits txs code) k = exits txs code

-- A quiet part of a run that succeeds gave a value, and what is submitted comes after it.
pub >>=-quiet :
    {A B : Type 0} (m : Script A) (f : A → Script B) (txs : List Tx) (b : B)
    → IsQuiet m
    → (m >>= f) ≡ ran txs b
    → (a : A) × (m ≡ ran [] a) × (f a ≡ ran txs b)
unfolding ◌>>=◌
>>=-quiet _ f txs b (gives a) h = (a, refl, sym (after_nil (f a)) ∙ h)
>>=-quiet _ f txs b (exits more code) h = cc

give-IsQuiet : {A : Type 0} (a : A) → IsQuiet (give a)
give-IsQuiet a = gives a

pub or_fatal-IsQuiet : {A : Type 0} (x : Option A) → IsQuiet (or_fatal x)
unfolding or_fatal
or_fatal-IsQuiet none = exits [] 1
or_fatal-IsQuiet (some a) = gives a

pub or_fatal-ran : {A : Type 0} (x : Option A) (a : A) → or_fatal x ≡ ran [] a → x ≡ some a
unfolding or_fatal
or_fatal-ran none a h = cc
or_fatal-ran (some b) a h = cc

ensure-IsQuiet : (b : Bool) → IsQuiet (ensure b)
unfolding ensure
ensure-IsQuiet true = gives tt
ensure-IsQuiet false = exits [] 1

pub need_arg-IsQuiet : (rest : List Bytes) (i : ℕ) → IsQuiet (need_arg rest i)
unfolding need_arg
need_arg-IsQuiet rest i =
    elim (get_elem? rest i)
      as (λ x. IsQuiet {A = Bytes} (elim x [ none ↦ exit [] 2 | some a ↦ ran [] a ])) [
        | none ↦ exits [] 2
        | some a ↦ gives a
      ]

pub parse_args-IsQuiet :
    (bools : Bytes → Bool) (f : FlagSet) (args : List Bytes) → IsQuiet (parse_args bools f args)
unfolding parse_args
parse_args-IsQuiet bools f args =
    elim (parse f (reorder bools args))
      as (λ x.
        IsQuiet {A = List (Bytes × Bytes) × List Bytes} (elim x [
          | exited code ↦ exit [] code
          | parsed assigned rest ↦ ran [] (assigned, rest)
        ])) [ exited code ↦ exits [] code | parsed assigned rest ↦ gives (assigned, rest) ]

ruleset quiet = (give-IsQuiet, or_fatal-IsQuiet, ensure-IsQuiet, >>=-IsQuiet)

module _ (c : Secp) (o : SliceSort) (g : Gnark) (t : Tools c) (env : Environment) (u : Unicode)
    (net : Network) where
  pub canonical-IsQuiet : (sel : Bytes) → IsQuiet (canonical c o g t env u net sel)
  unfolding canonical
  canonical-IsQuiet sel =
      elim (parse_selector_string u sel)
        as (λ (x : Result Bytes).
          IsQuiet {A = Bytes} (elim x [ err e ↦ exit [] 1 | ok s ↦ ran [] s ])) [
            | err e ↦ exits [] 1
            | ok s ↦ gives s
          ]

  pub dial-IsQuiet :
      (assigned : List (Bytes × Bytes)) (need_registry : Bool)
      → IsQuiet (dial c t env u net assigned need_registry)
  unfolding dial
  dial-IsQuiet assigned need_registry = search quiet depth 14

  pub generation_of-IsQuiet : (name : Bytes) → IsQuiet (generation_of c t env u net name)
  unfolding generation_of
  generation_of-IsQuiet name = search quiet depth 14

  -- the generation is that of the domain on chain
  pub generation_of-ran :
      (name : Bytes) (n : ℕ)
      → generation_of c t env u net name ≡ ran [] n
      → (dom : Domain) × (net.get_domain name ≡ some dom) × (dom.generation ≡ n)
  unfolding generation_of
  generation_of-ran name n h =
      let (dom, e, k) = >>=-quiet (or_fatal (net.get_domain name)) _ [] n (or_fatal-IsQuiet _) h in
      let (x, f, last) = >>=-quiet (ensure _) _ [] n (ensure-IsQuiet _) k in
      (dom, or_fatal-ran _ dom e, cc last)

  pub send-ran : (tx : Tx) (txs : List Tx) → send net tx ≡ ran txs tt → tx ∷ [] ≡ txs
  unfolding send
  send-ran tx txs h = ground arith

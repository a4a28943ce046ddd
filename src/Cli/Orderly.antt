-- ===== src/Cli/Orderly.antt =====
-- The transactions of the commands of resolver/cmd/ddns and their receipts.
use decentralized_dns.Base.{
  ℕ, Bytes, List, [], ◌∷◌, ◌++◌, Bool, true, false, Option, none, some, get_elem?, ◌≡◌, refl, ◌⊎◌,
  inl, inr,
}
use decentralized_dns.Base.Text.{Unicode}
use decentralized_dns.Config.Env.{Environment}
use decentralized_dns.Pki.Owner.{Secp}
use decentralized_dns.Cli.Args.{FlagSet, parsed, exited, parse, reorder}
use decentralized_dns.Cli.Addresses.{Tools}
use decentralized_dns.Cli.Script.{
  Tx, Sent, Network, refused, unmined, reverted, confirmed, Script, ran, exit, after, ◌>>=◌, give,
  or_fatal, ensure, need_arg, parse_args, send, dial, generation_of,
}

abbrev pub AllConfirmed : Network → List Tx → Type 0
AllConfirmed net [] = Unit {0}
AllConfirmed net (tx ∷ txs) = (net.submit tx ≡ confirmed) × AllConfirmed net txs

-- all but the last are confirmed
abbrev pub InitConfirmed : Network → List Tx → Type 0
InitConfirmed net [] = Unit {0}
InitConfirmed net (tx ∷ []) = Unit {0}
InitConfirmed net (tx ∷ tx' ∷ txs) = (net.submit tx ≡ confirmed) × InitConfirmed net (tx' ∷ txs)

-- No transaction follows one that is not confirmed, and none is unconfirmed if the run succeeds.
pub data IsOrderly (net : Network) {A : Type 0} : Script A → Type 0 where
  succeeds : (txs : List Tx) (a : A) → AllConfirmed net txs → IsOrderly net (ran txs a)
  fails : (txs : List Tx) (code : ℕ) → InitConfirmed net txs → IsOrderly net (exit txs code)

Sent-cases : (x : Sent) → (x ≡ confirmed) ⊎ (x ≡ refused) ⊎ (x ≡ unmined) ⊎ (x ≡ reverted)
Sent-cases confirmed = inl refl
Sent-cases refused = inr (inl refl)
Sent-cases unmined = inr (inr (inl refl))
Sent-cases reverted = inr (inr (inr refl))

module _ (net : Network) where
  AllConfirmed-append :
      (xs ys : List Tx) → AllConfirmed net xs → AllConfirmed net ys → AllConfirmed net (xs ++ ys)
  AllConfirmed-append [] ys h k = k
  AllConfirmed-append (x ∷ xs) ys (p, h) k = (p, AllConfirmed-append xs ys h k)

  InitConfirmed-cons :
      (x : Tx) (xs : List Tx)
      → net.submit x ≡ confirmed
      → InitConfirmed net xs
      → InitConfirmed net (x ∷ xs)
  InitConfirmed-cons x [] p h = tt
  InitConfirmed-cons x (y ∷ ys) p h = (p, h)

  InitConfirmed-append :
      (xs ys : List Tx) → AllConfirmed net xs → InitConfirmed net ys → InitConfirmed net (xs ++ ys)
  InitConfirmed-append [] ys h k = k
  InitConfirmed-append (x ∷ xs) ys (p, h) k =
      InitConfirmed-cons x (xs ++ ys) p (InitConfirmed-append xs ys h k)

  module _ {A : Type 0} where
    pub after-IsOrderly :
        (txs : List Tx) (m : Script A)
        → AllConfirmed net txs
        → IsOrderly net m
        → IsOrderly net (after txs m)
    after-IsOrderly txs _ h (succeeds more a k) = succeeds _ a (AllConfirmed-append txs more h k)
    after-IsOrderly txs _ h (fails more code k) = fails _ code (InitConfirmed-append txs more h k)

    pub or_fatal-IsOrderly : (x : Option A) → IsOrderly net (or_fatal x)
    unfolding or_fatal
    or_fatal-IsOrderly none = fails [] 1 tt
    or_fatal-IsOrderly (some a) = succeeds [] a tt

    pub give-IsOrderly : (a : A) → IsOrderly net (give a)
    give-IsOrderly a = succeeds [] a tt

  pub >>=-IsOrderly :
      {A B : Type 0} (m : Script A) (f : A → Script B)
      → IsOrderly net m
      → ((a : A) → IsOrderly net (f a))
      → IsOrderly net (m >>= f)
  unfolding ◌>>=◌
  >>=-IsOrderly _ f (succeeds txs a h) k = after-IsOrderly txs (f a) h (k a)
  >>=-IsOrderly _ f (fails txs code h) k = fails txs code h

  pub ensure-IsOrderly : (b : Bool) → IsOrderly net (ensure b)
  unfolding ensure
  ensure-IsOrderly true = succeeds [] tt tt
  ensure-IsOrderly false = fails [] 1 tt

  pub need_arg-IsOrderly : (rest : List Bytes) (i : ℕ) → IsOrderly net (need_arg rest i)
  unfolding need_arg
  need_arg-IsOrderly rest i =
      elim (get_elem? rest i)
        as (λ x. IsOrderly net (elim x [ none ↦ exit [] 2 | some a ↦ ran [] a ])) [
          | none ↦ fails [] 2 tt
          | some a ↦ succeeds [] a tt
        ]

  pub parse_args-IsOrderly :
      (bools : Bytes → Bool) (f : FlagSet) (args : List Bytes)
      → IsOrderly net (parse_args bools f args)
  unfolding parse_args
  parse_args-IsOrderly bools f args =
      elim (parse f (reorder bools args))
        as (λ x. IsOrderly net {A = List (Bytes × Bytes) × List Bytes} (elim x [
          | exited code ↦ exit [] code
          | parsed assigned rest ↦ ran [] (assigned, rest)
        ])) [
          | exited code ↦ fails [] code tt
          | parsed assigned rest ↦ succeeds [] (assigned, rest) tt
        ]

  pub send-IsOrderly : (tx : Tx) → IsOrderly net (send net tx)
  unfolding send
  send-IsOrderly tx = elim (Sent-cases (net.submit tx)) [
    | inl e ↦ rw (e, send) (succeeds (tx ∷ []) tt (e, tt))
    | inr (inl e) ↦ rw (e, send) (fails [] 1 tt)
    | inr (inr (inl e)) ↦ rw (e, send) (fails (tx ∷ []) 1 tt)
    | inr (inr (inr e)) ↦ rw (e, send) (fails (tx ∷ []) 1 tt)
  ]

  pub generation_of-IsOrderly :
      (c : Secp) (t : Tools c) (env : Environment) (u : Unicode) (name : Bytes)
      → IsOrderly net (generation_of c t env u net name)
  unfolding generation_of
  generation_of-IsOrderly c t env u name =
      >>=-IsOrderly (or_fatal (net.get_domain name)) _ (or_fatal-IsOrderly _)
        (λ dom. >>=-IsOrderly (ensure _) _ (ensure-IsOrderly _) (λ x. give-IsOrderly _))

  pub dial-IsOrderly :
      (c : Secp) (t : Tools c) (env : Environment) (u : Unicode) (assigned : List (Bytes × Bytes))
      (need_registry : Bool)
      → IsOrderly net (dial c t env u net assigned need_registry)
  unfolding dial
  dial-IsOrderly c t env u assigned need_registry =
      >>=-IsOrderly (or_fatal _) _ (or_fatal-IsOrderly _) (λ key.
        >>=-IsOrderly (ensure _) _ (ensure-IsOrderly _) (λ x.
          >>=-IsOrderly (ensure _) _ (ensure-IsOrderly _)
            (λ y. >>=-IsOrderly (ensure _) _ (ensure-IsOrderly _) (λ z. give-IsOrderly _))))

-- ===== src/Chain/Client.antt =====
-- resolver/internal/chain/client.go: the bounded retries of a call to the chain.
use decentralized_dns.Base.{
  ℕ, zero, suc, ◌+◌, ◌≤◌, ◌<◌, Bool, true, false, ◌&&◌, Option, none, some, ltb, if◌then◌else◌, ◌≡◌,
  refl, sym, ap, ◌∙◌, subst, ℕ_discrete, arith, Bool-cases, Option-cases, inl, inr,
}

abbrev pub retry_attempts : ℕ
retry_attempts = 3

-- what retry returns: a value, the error of the context, or an error after the last attempt
pub data Attempted (A : Type 0) : Type 0 where
  done : A → Attempted A
  cancelled exhausted : Attempted A

-- A remote call: what its attempts give, with `none` for an error, and whether the context has ended
-- during the wait before an attempt, and after an attempt.
pub record Remote (A : Type 0) : Type 0 where
  pub call : ℕ → Option A
  pub ended_waiting : ℕ → Bool
  pub ended_after : ℕ → Bool

module _ {A : Type 0} (r : Remote A) where
  -- The loop from an attempt on, with how many attempts are left; the calls that it makes are counted.
  unfoldable pub attempt_from : ℕ → ℕ → Attempted A × ℕ
  attempt_from zero i = (exhausted, 0)
  attempt_from (suc n) i =
      let rest = attempt_from n (i + 1) in
      if ltb 0 i && r.ended_waiting i then (cancelled, 0) else elim (r.call i) [
        | some a ↦ (done a, 1)
        | none ↦ if r.ended_after i then (cancelled, 1) else (rest.0, suc rest.1)
      ]

  unfoldable pub retry : Attempted A × ℕ
  unfolding attempt_from
  retry = attempt_from retry_attempts 0

  -- What the loop shows of attempts from i on.
  abbrev pub Explains : ℕ → ℕ → Attempted A → Type 0
  Explains n i (done a) =
      (k : ℕ) × (i ≤ k)
      × (k < i + n)
      × (r.call k ≡ some a)
      × ((j : ℕ) → i ≤ j → j < k → r.call j ≡ none)
  Explains n i exhausted = (j : ℕ) → i ≤ j → j < i + n → r.call j ≡ none
  Explains n i cancelled = Unit

  attempt_skipped :
      (n i : ℕ) → (ltb 0 i && r.ended_waiting i) ≡ true → attempt_from (suc n) i ≡ (cancelled, 0)
  unfolding attempt_from
  attempt_skipped n i h = rw h refl

  attempt_done :
      (n i : ℕ) (a : A)
      → (ltb 0 i && r.ended_waiting i) ≡ false
      → r.call i ≡ some a
      → attempt_from (suc n) i ≡ (done a, 1)
  unfolding attempt_from
  attempt_done n i a h e = rw (h, e) refl

  attempt_ended :
      (n i : ℕ)
      → (ltb 0 i && r.ended_waiting i) ≡ false
      → r.call i ≡ none
      → r.ended_after i ≡ true
      → attempt_from (suc n) i ≡ (cancelled, 1)
  unfolding attempt_from
  attempt_ended n i h e f = rw (h, e, f) refl

  attempt_again :
      (n i : ℕ)
      → (ltb 0 i && r.ended_waiting i) ≡ false
      → r.call i ≡ none
      → r.ended_after i ≡ false
      → attempt_from (suc n) i ≡ ((attempt_from n (i + 1)).0, suc (attempt_from n (i + 1)).1)
  unfolding attempt_from
  attempt_again n i h e f = rw (h, e, f) refl

  widen :
      (n i : ℕ) (x : Attempted A) → r.call i ≡ none → Explains n (i + 1) x → Explains (suc n) i x
  widen n i (done a) e (k, lo, hi, got, before) = (
    k,
    omega arith,
    omega arith,
    got,
    λ j from below. elim (ℕ_discrete j i) [
      | yes same ↦ ap r.call same ∙ e
      | no ne ↦ before j (omega arith) below
    ],
  )
  widen n i cancelled e x = tt
  widen n i exhausted e x = λ j from below. elim (ℕ_discrete j i) [
    | yes same ↦ ap r.call same ∙ e
    | no ne ↦ x j (omega arith) (omega arith)
  ]

  attempt_from-Explains : (n i : ℕ) → Explains n i (attempt_from n i).0 × ((attempt_from n i).1 ≤ n)
  attempt_from-Explains zero i =
      unfold attempt_from in (λ j lo hi. absurd (omega arith), omega arith)
  attempt_from-Explains (suc n) i =
      let Good : Attempted A × ℕ → Type 0 = λ p. Explains (suc n) i p.0 × (p.1 ≤ suc n) in
      elim (Bool-cases (ltb 0 i && r.ended_waiting i)) [
        | inl h ↦ subst Good (sym (attempt_skipped n i h)) (tt, omega arith)
        | inr h ↦ elim (Option-cases (r.call i)) [
          | inr (a, e) ↦
              subst Good (sym (attempt_done n i a h e))
                ((i, omega arith, omega arith, e, λ j lo hi. absurd (omega arith)), omega arith)
          | inl e ↦ elim (Bool-cases (r.ended_after i)) [
            | inl f ↦ subst Good (sym (attempt_ended n i h e f)) (tt, omega arith)
            | inr f ↦
                let (ih, few) = attempt_from-Explains n (i + 1) in
                subst Good (sym (attempt_again n i h e f))
                  (widen n i (attempt_from n (i + 1)).0 e ih, omega arith)
          ]
        ]
      ]

  -- A retried call is made at most three times; a value that it returns is that of the first attempt
  -- that succeeded, and an error after the last attempt means that all three failed.
  pub retry-Explains : Explains 3 0 retry.0 × (retry.1 ≤ 3)
  unfolding retry
  retry-Explains = attempt_from-Explains 3 0

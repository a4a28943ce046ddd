-- ===== src/Cli/Exact.antt =====
-- mustEth of resolver/cmd/ddns/channels.go against the decimal numbers that it reads.
use decentralized_dns.Base.{
  ℕ, zero, suc, ◌+◌, ◌-◌, ◌*◌, ◌/◌, ◌^◌, ◌≤◌, ◌<◌, Bytes, [], ◌∷◌, ◌++◌, true, ◌==◌, none, some,
  if◌then◌else◌, length, all_of, ◌≡◌, refl, sym, ap, ◌∙◌, append-nil, subst, Option-cases, inl, inr,
  arith,
}
use native.Mathlib.Nat.{
  pow-suc, pow-le-pow_right, div-mul-le_self, lt-div-mul-add, mul-div_cancel, add-mul, mul_assoc,
  mul_comm,
}
use decentralized_dns.Base.Text.{Unicode, trim_space, is_digit}
use decentralized_dns.Base.TextLaws.{is_graphic, trim_space-graphic, lacks, cut-append, cut-lacks}
use decentralized_dns.Cli.Amount.{is_digits, decimal_value, decimal_parts, wei_per_eth, must_eth}

pow_pos : (k : ℕ) → 0 < 10 ^ k
pow_pos k = omega (arith, pow-le-pow_right {n = 10} (omega arith) {i = 0} {j = k} (omega arith))

step : (n m : ℕ) → (n + 1) * m ≡ n * m + m
step n m = grind arith

-- The quotient is the only number that the test for zero lets through.
under_zero_test :
    (wei w : ℕ) → (if wei == 0 then none else some wei) ≡ some w → (0 < wei) × (wei ≡ w)
under_zero_test wei w h = ground arith

must_eth-eq :
    (u : Unicode) (text : Bytes) (digits places : ℕ)
    → decimal_parts (trim_space u text) ≡ some (digits, places)
    → must_eth u text ≡ (
        if digits * wei_per_eth / 10 ^ places == 0
        then none
        else some (digits * wei_per_eth / 10 ^ places))
unfolding must_eth
must_eth-eq u text digits places e = rw (e, must_eth) refl

must_eth-none :
    (u : Unicode) (text : Bytes) → decimal_parts (trim_space u text) ≡ none → must_eth u text ≡ none
unfolding must_eth
must_eth-none u text e = rw (e, must_eth) refl

-- An amount that `mustEth` takes is the whole part of the written number of ETH in wei, and is not
-- zero.
pub must_eth-floor :
    (u : Unicode) (text : Bytes) (wei : ℕ)
    → must_eth u text ≡ some wei
    → (digits places : ℕ) × (decimal_parts (trim_space u text) ≡ some (digits, places))
      × (0 < wei)
      × (wei * 10 ^ places ≤ digits * wei_per_eth)
      × (digits * wei_per_eth < (wei + 1) * 10 ^ places)
must_eth-floor u text wei h = elim (Option-cases (decimal_parts (trim_space u text))) [
  | inl e ↦ absurd (cc (must_eth-none u text e))
  | inr ((digits, places), e) ↦
      let total = digits * wei_per_eth in
      let (positive, made) =
        under_zero_test (total / 10 ^ places) wei (sym (must_eth-eq u text digits places e) ∙ h) in
      (
        digits,
        places,
        e,
        subst (λ w. 0 < w) made positive,
        subst (λ w. w * 10 ^ places ≤ total) made (div-mul-le_self total (10 ^ places)),
        subst (λ w. total < (w + 1) * 10 ^ places) made
            (omega (
              arith,
              lt-div-mul-add {a = total} (pow_pos places),
              step (total / 10 ^ places) (10 ^ places),
            )),
      )
]

distribute : (a d p q v : ℕ) → q ≡ p * 10 → (a * 10 + d) * p + v ≡ a * q + (d * p + v)
distribute a d p q v h =
    rw h (omega (arith, add-mul (a * 10) d p, mul_assoc a 10 p, ap (λ k. a * k) (mul_comm 10 p)))

decimal_value-acc :
    (acc : ℕ) (xs : Bytes) → decimal_value acc xs ≡ acc * 10 ^ length xs + decimal_value 0 xs
unfolding decimal_value
decimal_value-acc acc [] = omega arith
decimal_value-acc acc (c ∷ cs) =
    let d = c - b'0' in
    let p = 10 ^ length cs in
    decimal_value-acc (acc * 10 + d) cs
    ∙ distribute acc d p (10 ^ suc (length cs)) (decimal_value 0 cs) (pow-suc 10 (length cs))
    ∙ ap (λ k. acc * 10 ^ suc (length cs) + k)
        (omega (arith, decimal_value-acc d cs, decimal_value-acc (0 * 10 + d) cs))

decimal_value-append :
    (acc : ℕ) (xs ys : Bytes)
    → decimal_value acc (xs ++ ys) ≡ decimal_value acc xs * 10 ^ length ys + decimal_value 0 ys
unfolding decimal_value
decimal_value-append acc [] ys = decimal_value-acc acc ys
decimal_value-append acc (c ∷ cs) ys = decimal_value-append (acc * 10 + (c - b'0')) cs ys

pow_split : (n k : ℕ) → 10 ^ n * 10 ^ k ≡ 10 ^ (n + k)
pow_split n zero =
    let same : n ≡ n + 0 = omega arith in
    let one : 10 ^ n * 10 ^ 0 ≡ 10 ^ n = omega arith in one ∙ ap (λ k. 10 ^ k) same
pow_split n (suc k) =
    let next : suc (n + k) ≡ n + suc k = omega arith in
    ap (λ x. 10 ^ n * x) (pow-suc 10 k)
    ∙ sym (mul_assoc (10 ^ n) (10 ^ k) 10)
    ∙ ap (λ x. x * 10) (pow_split n k)
    ∙ sym (pow-suc 10 (n + k))
    ∙ ap (λ e. 10 ^ e) next

scale :
    (w f p q : ℕ) → p * q ≡ wei_per_eth → (w * p + f) * wei_per_eth ≡ (w * wei_per_eth + f * q) * p
scale w f p q h =
    add-mul (w * p) f wei_per_eth
    ∙ omega (
      arith,
      mul_assoc w p wei_per_eth,
      ap (λ k. w * k) (mul_comm p wei_per_eth),
      mul_assoc w wei_per_eth p,
      ap (λ k. f * k) (sym h ∙ mul_comm p q),
      mul_assoc f q p,
      add-mul (w * wei_per_eth) (f * q) p,
    )

-- a text with a decimal point
abbrev decimal : Bytes → Bytes → Bytes
decimal whole fraction = whole ++ (b'.' ∷ fraction)

digits-graphic : (s : Bytes) → all_of is_digit s ≡ true → all_of is_graphic s ≡ true
digits-graphic [] h = refl
digits-graphic (c ∷ cs) h = ground (arith, digits-graphic cs)

decimal-graphic :
    (whole fraction : Bytes)
    → all_of is_digit whole ≡ true
    → all_of is_digit fraction ≡ true
    → all_of is_graphic (decimal whole fraction) ≡ true
decimal-graphic [] fraction h k = ground (arith, digits-graphic fraction)
decimal-graphic (c ∷ cs) fraction h k = ground (arith, decimal-graphic cs fraction)

digits-lacks : (s : Bytes) → all_of is_digit s ≡ true → lacks b'.' s ≡ true
digits-lacks [] h = refl
digits-lacks (c ∷ cs) h = ground (arith, digits-lacks cs)

all_digits : (s : Bytes) → is_digits s ≡ true → all_of is_digit s ≡ true
all_digits s h = ground arith

decimal_parts-decimal :
    (whole fraction : Bytes)
    → is_digits whole ≡ true
    → is_digits fraction ≡ true
    → decimal_parts (decimal whole fraction)
      ≡ some (decimal_value 0 (whole ++ fraction), length fraction)
unfolding decimal_parts
decimal_parts-decimal whole fraction h k =
    rw
      (
        cut-append b'.' whole fraction (digits-lacks whole (all_digits whole h)),
        decimal_parts,
        h,
        k,
      )
      refl

-- a decimal number as it is written: without a point when it has no decimal places
abbrev pub amount : Bytes → Bytes → Bytes
amount whole [] = whole
amount whole (c ∷ cs) = decimal whole (c ∷ cs)

decimal_parts-whole :
    (whole : Bytes) → is_digits whole ≡ true → decimal_parts whole ≡ some (decimal_value 0 whole, 0)
unfolding decimal_parts
decimal_parts-whole whole h =
    rw (cut-lacks b'.' whole (digits-lacks whole (all_digits whole h)), decimal_parts, h) refl

decimal_parts-amount :
    (whole fraction : Bytes)
    → is_digits whole ≡ true
    → all_of is_digit fraction ≡ true
    → decimal_parts (amount whole fraction)
      ≡ some (decimal_value 0 (whole ++ fraction), length fraction)
decimal_parts-amount whole [] h k =
    decimal_parts-whole whole h ∙ ap (λ s. some (decimal_value 0 s, 0)) (sym (append-nil whole))
decimal_parts-amount whole (c ∷ cs) h k = decimal_parts-decimal whole (c ∷ cs) h (ground (arith, k))

amount-graphic :
    (whole fraction : Bytes)
    → all_of is_digit whole ≡ true
    → all_of is_digit fraction ≡ true
    → all_of is_graphic (amount whole fraction) ≡ true
amount-graphic whole [] h k = digits-graphic whole h
amount-graphic whole (c ∷ cs) h k = decimal-graphic whole (c ∷ cs) h k

-- An amount of ETH, written in decimal digits with or without decimal places, of which there are at
-- most 18, is read exactly: its wei are the whole part times 10^18 and the decimal places moved to 18
-- of them. An amount of zero is refused.
pub must_eth-exact :
    (u : Unicode) (whole fraction : Bytes)
    → is_digits whole ≡ true
    → all_of is_digit fraction ≡ true
    → length fraction ≤ 18
    → let wei =
        decimal_value 0 whole * wei_per_eth
        + decimal_value 0 fraction * 10 ^ (18 - length fraction) in
      must_eth u (amount whole fraction) ≡ (if wei == 0 then none else some wei)
must_eth-exact u whole fraction h k few =
    let n = length fraction in
    let w = decimal_value 0 whole in
    let f = decimal_value 0 fraction in
    let trimmed =
      trim_space-graphic u (amount whole fraction)
        (amount-graphic whole fraction (all_digits whole h) k) in
    let wei = w * wei_per_eth + f * 10 ^ (18 - n) in
    let full : n + (18 - n) ≡ 18 = omega arith in
    let shifted : 10 ^ n * 10 ^ (18 - n) ≡ wei_per_eth =
      pow_split n (18 - n) ∙ ap (λ e. 10 ^ e) full in
    let total : decimal_value 0 (whole ++ fraction) * wei_per_eth / 10 ^ n ≡ wei =
      ap (λ v. v * wei_per_eth / 10 ^ n) (decimal_value-append 0 whole fraction)
      ∙ ap (λ v. v / 10 ^ n) (scale w f (10 ^ n) (10 ^ (18 - n)) shifted)
      ∙ mul-div_cancel wei (pow_pos n) in
    must_eth-eq u (amount whole fraction) (decimal_value 0 (whole ++ fraction)) n
      (ap decimal_parts trimmed ∙ decimal_parts-amount whole fraction h k)
    ∙ ap (λ v. if v == 0 then none else some v) total

-- ===== src/Base/Decimal.antt =====
-- Decimal numbers: strconv.Itoa against strconv.Atoi.
use decentralized_dns.Base.Tests.{ltb, Bool-cases}
use decentralized_dns.Base.Lists.{Bytes, all_of}
use decentralized_dns.Base.Ints.{pos}
use decentralized_dns.Base.Text.{is_digit, digits_value, parse_magnitude, atoi, itoa_fuel, itoa}
use Prim.Native.Nat.{ℕ, zero, suc, ◌+◌, ◌-◌, ◌*◌, ◌/◌, ◌%◌, ◌^◌, ◌<◌}
use mathlib.Core.Bool.{true, false}
use mathlib.Core.Option.{some}
use mathlib.Core.List.{[], ◌∷◌, ◌++◌}
use mathlib.Core.Logic.{◌≢◌, inl, inr}
use mathlib.Core.Path.{◌≡◌, refl, sym, ap, ◌∙◌}
use native.Mathlib.Omega.{arith}
use native.Mathlib.Nat.{pow-suc}

digits_value-snoc :
    (acc n d : ℕ) (xs : Bytes)
    → d < 10
    → digits_value acc xs ≡ some n
    → digits_value acc (xs ++ ((b'0' + d) ∷ [])) ≡ some (n * 10 + d)
unfolding digits_value
digits_value-snoc acc n d [] h e = ground arith
digits_value-snoc acc n d (c ∷ cs) h e =
    ground (arith, digits_value-snoc (acc * 10 + (c - b'0')) n d cs h)

itoa_fuel_step :
    (fuel n : ℕ)
    → ltb n 10 ≡ false
    → itoa_fuel (suc fuel) n ≡ itoa_fuel fuel (n / 10) ++ ((b'0' + n % 10) ∷ [])
unfolding itoa_fuel
itoa_fuel_step fuel n h = rw h

itoa_fuel_small : (fuel n : ℕ) → ltb n 10 ≡ true → itoa_fuel (suc fuel) n ≡ (b'0' + n) ∷ []
unfolding itoa_fuel
itoa_fuel_small fuel n h = rw h

digits_value_one : (n : ℕ) → n < 10 → digits_value 0 ((b'0' + n) ∷ []) ≡ some n
unfolding digits_value
digits_value_one n h = ground arith

digits_value-itoa_fuel :
    (fuel n : ℕ) → n < 10 ^ suc fuel → digits_value 0 (itoa_fuel (suc fuel) n) ≡ some n
digits_value-itoa_fuel zero n h =
    rw (itoa_fuel_small zero n (ground arith)) (digits_value_one n (omega arith))
digits_value-itoa_fuel (suc fuel) n h = elim (Bool-cases (ltb n 10)) [
  | inl small ↦ rw (itoa_fuel_small (suc fuel) n small) (digits_value_one n (ground arith))
  | inr big ↦ rw (itoa_fuel_step (suc fuel) n big) (
      digits_value-snoc 0 (n / 10) (n % 10) (itoa_fuel (suc fuel) (n / 10)) (omega arith)
        (digits_value-itoa_fuel fuel (n / 10) (omega (arith, pow-suc 10 (suc fuel))))
      ∙ ap some (omega arith))
]

digit_byte : (d : ℕ) → d < 10 → is_digit (b'0' + d) ≡ true
digit_byte d h = ground arith

all_digits-snoc :
    (xs : Bytes) (d : ℕ)
    → d < 10
    → all_of is_digit xs ≡ true
    → all_of is_digit (xs ++ ((b'0' + d) ∷ [])) ≡ true
all_digits-snoc [] d h a = ground (arith, digit_byte d h)
all_digits-snoc (x ∷ xs) d h a = ground (arith, all_digits-snoc xs d h)

all_digits-itoa_fuel : (fuel n : ℕ) → all_of is_digit (itoa_fuel fuel n) ≡ true
all_digits-itoa_fuel zero n = unfold itoa_fuel in refl
all_digits-itoa_fuel (suc fuel) n = elim (Bool-cases (ltb n 10)) [
  | inl small ↦ rw (itoa_fuel_small fuel n small) (ground (arith, digit_byte n (ground arith)))
  | inr big ↦ rw (itoa_fuel_step fuel n big) (
      all_digits-snoc (itoa_fuel fuel (n / 10)) (n % 10) (omega arith)
        (all_digits-itoa_fuel fuel (n / 10)))
]

-- What Itoa writes are digits.
pub all_digits-itoa : (n : ℕ) → all_of is_digit (itoa n) ≡ true
all_digits-itoa n = unfold itoa in all_digits-itoa_fuel 19 n

-- a text of digits with a value is read by Atoi without a sign
atoi_digits :
    (s : Bytes) (n : ℕ)
    → all_of is_digit s ≡ true
    → s ≢ []
    → digits_value 0 s ≡ some n
    → n < 2 ^ 63
    → atoi s ≡ some (pos n)
unfolding atoi parse_magnitude
atoi_digits [] n a ne e h = absurd (ne refl)
atoi_digits (c ∷ cs) n a ne e h = ground arith

snoc-ne-nil : (xs : Bytes) (d : ℕ) → xs ++ (d ∷ []) ≢ []
snoc-ne-nil [] d e = cc
snoc-ne-nil (x ∷ xs) d e = cc

itoa_fuel-ne-nil : (fuel n : ℕ) → itoa_fuel (suc fuel) n ≢ []
itoa_fuel-ne-nil fuel n e = elim (Bool-cases (ltb n 10)) [
  | inl small ↦ cc (itoa_fuel_small fuel n small)
  | inr big ↦ snoc-ne-nil _ _ (sym (itoa_fuel_step fuel n big) ∙ e)
]

pub itoa-ne-nil : (n : ℕ) → itoa n ≢ []
itoa-ne-nil n = unfold itoa in itoa_fuel-ne-nil 18 n

-- `Atoi` reads back the number that `Itoa` wrote, for every number that a 64-bit int can hold.
pub atoi-itoa : (n : ℕ) → n < 2 ^ 63 → atoi (itoa n) ≡ some (pos n)
atoi-itoa n h =
    atoi_digits (itoa n) n (all_digits-itoa n) (itoa-ne-nil n)
      (unfold itoa in digits_value-itoa_fuel 18 n (omega arith)) h

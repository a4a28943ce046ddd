-- ===== src/Base/Text.antt =====
-- What the sources use of Go's strings and strconv packages, over byte strings. On a text with a
-- byte above 127 the case and space functions follow the Unicode tables of the Go distribution,
-- which are generated data: they enter as the parameter `Unicode`.
use decentralized_dns.Base.Tests.{ltb, ◌==◌, if◌then◌else◌, in_range}
use decentralized_dns.Base.Lists.{Bytes, length, all_of}
use decentralized_dns.Base.Ints.{ℤ, pos, negsuc}
use Prim.Native.Nat.{ℕ, zero, suc, ◌+◌, ◌-◌, ◌*◌, ◌/◌, ◌%◌, ◌^◌}
use mathlib.Core.Bool.{Bool, true, false, ◌&&◌, ◌||◌}
use mathlib.Core.Option.{Option, none, some}
use mathlib.Core.List.{List, [], ◌∷◌, ◌++◌, map}

-- strings.TrimSpace, ToLower, ToUpper and utf8.RuneCountInString on texts that are not ASCII
pub record Unicode : Type 0 where
  pub trim_space : Bytes → Bytes
  pub to_lower : Bytes → Bytes
  pub to_upper : Bytes → Bytes
  pub rune_count : Bytes → ℕ

abbrev pub is_ascii : Bytes → Bool
is_ascii = all_of (λ c. ltb c 128)

-- \t \n \v \f \r and the blank
abbrev pub is_space : ℕ → Bool
is_space c = in_range 9 13 c || c == 32

abbrev pub is_digit : ℕ → Bool
is_digit = in_range b'0' b'9'

abbrev pub is_lower : ℕ → Bool
is_lower = in_range b'a' b'z'

abbrev pub is_upper : ℕ → Bool
is_upper = in_range b'A' b'Z'

unfoldable pub lower_byte : ℕ → ℕ
lower_byte c = if is_upper c then c + 32 else c

unfoldable pub upper_byte : ℕ → ℕ
upper_byte c = if is_lower c then c - 32 else c

unfoldable pub trim_left : Bytes → Bytes
trim_left [] = []
trim_left (c ∷ cs) = if is_space c then trim_left cs else c ∷ cs

-- the byte in front of a trimmed rest
unfoldable pub keep_unless_space : ℕ → Bytes → Bytes
keep_unless_space c [] = if is_space c then [] else c ∷ []
keep_unless_space c (d ∷ ds) = c ∷ d ∷ ds

unfoldable pub trim_right : Bytes → Bytes
unfolding keep_unless_space
trim_right [] = []
trim_right (c ∷ cs) = keep_unless_space c (trim_right cs)

unfoldable pub trim_space : Unicode → Bytes → Bytes
unfolding trim_left trim_right
trim_space u s = if is_ascii s then trim_right (trim_left s) else u.trim_space s

unfoldable pub to_lower : Unicode → Bytes → Bytes
unfolding lower_byte
to_lower u s = if is_ascii s then map lower_byte s else u.to_lower s

unfoldable pub to_upper : Unicode → Bytes → Bytes
unfolding upper_byte
to_upper u s = if is_ascii s then map upper_byte s else u.to_upper s

unfoldable pub rune_count : Unicode → Bytes → ℕ
rune_count u s = if is_ascii s then length s else u.rune_count s

-- strings.Split(s, sep) at a one-byte separator
unfoldable pub push_head : ℕ → List Bytes → List Bytes
push_head c [] = (c ∷ []) ∷ []
push_head c (p ∷ ps) = (c ∷ p) ∷ ps

unfoldable pub split : ℕ → Bytes → List Bytes
unfolding push_head
split sep [] = [] ∷ []
split sep (c ∷ cs) = if c == sep then [] ∷ split sep cs else push_head c (split sep cs)

-- strings.Join(parts, sep)
unfoldable pub join : ℕ → List Bytes → Bytes
join sep [] = []
join sep (p ∷ []) = p
join sep (p ∷ q ∷ ps) = p ++ (sep ∷ join sep (q ∷ ps))

-- strings.Cut(s, sep) at a one-byte separator; none where the separator is missing
unfoldable pub cut_at : ℕ → Option (Bytes × Bytes) → Option (Bytes × Bytes)
cut_at c none = none
cut_at c (some (a, b)) = some (c ∷ a, b)

unfoldable pub cut : ℕ → Bytes → Option (Bytes × Bytes)
unfolding cut_at
cut sep [] = none
cut sep (c ∷ cs) = if c == sep then some ([], cs) else cut_at c (cut sep cs)

-- strings.HasPrefix and TrimPrefix
unfoldable pub has_prefix : Bytes → Bytes → Bool
has_prefix s [] = true
has_prefix [] (p ∷ ps) = false
has_prefix (c ∷ cs) (p ∷ ps) = c == p && has_prefix cs ps

-- the digits of strconv.Atoi, after the sign
unfoldable pub digits_value : ℕ → Bytes → Option ℕ
digits_value acc [] = some acc
digits_value acc (c ∷ cs) =
    let rest = digits_value (acc * 10 + (c - b'0')) cs in if is_digit c then rest else none

-- an unsigned magnitude below the given bound
unfoldable pub parse_magnitude : ℕ → Bytes → Option ℕ
unfolding digits_value
parse_magnitude bound [] = none
parse_magnitude bound (c ∷ cs) = elim (digits_value 0 (c ∷ cs)) [
  | none ↦ none
  | some n ↦ if ltb n bound then some n else none
]

abbrev pub negate : ℕ → ℤ
negate zero = pos zero
negate (suc n) = negsuc n

-- strconv.Atoi on a 64-bit platform: none is a syntax or a range error
unfoldable pub atoi : Bytes → Option ℤ
unfolding parse_magnitude
atoi [] = none
atoi (c ∷ cs) =
    if c == b'-'
    then (elim (parse_magnitude (2 ^ 63 + 1) cs) [ none ↦ none | some n ↦ some (negate n) ])
    else (elim (parse_magnitude (2 ^ 63) (if c == b'+' then cs else c ∷ cs)) [
      | none ↦ none
      | some n ↦ some (pos n)
    ])

-- strconv.Itoa of a number that is not negative: `fuel` bounds the number of digits
unfoldable pub itoa_fuel : ℕ → ℕ → Bytes
itoa_fuel zero n = []
itoa_fuel (suc fuel) n =
    let more = itoa_fuel fuel (n / 10) ++ ((b'0' + n % 10) ∷ []) in
    if ltb n 10 then (b'0' + n) ∷ [] else more

-- an int has at most 19 digits
unfoldable pub itoa : ℕ → Bytes
unfolding itoa_fuel
itoa = itoa_fuel 19

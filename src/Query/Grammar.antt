-- ===== src/Query/Grammar.antt =====
-- The four regular expressions of resolver/internal/query/query.go, as the automata that they
-- denote.
use decentralized_dns.Base.{
  ℕ, Bytes, [], ◌∷◌, Bool, true, false, not, ◌&&◌, ◌||◌, leb, ◌==◌, length, all_of,
}
use decentralized_dns.Base.Text.{Unicode, is_digit, is_lower, is_upper, rune_count}

-- [a-z0-9]
abbrev pub is_alnum : ℕ → Bool
is_alnum c = is_lower c || is_digit c

-- [a-z0-9-]
abbrev pub is_label : ℕ → Bool
is_label c = is_alnum c || c == b'-'

-- [a-z0-9-]*[a-z0-9]
unfoldable pub ends_alnum : Bytes → Bool
ends_alnum [] = false
ends_alnum (c ∷ []) = is_alnum c
ends_alnum (c ∷ d ∷ cs) = is_label c && ends_alnum (d ∷ cs)

-- ([a-z0-9-]{0,61}[a-z0-9])?
unfoldable pub tail_ok : Bytes → Bool
tail_ok [] = true
tail_ok (c ∷ cs) = leb (length (c ∷ cs)) 62 && ends_alnum (c ∷ cs)

-- nameRe.MatchString
unfoldable pub name_ok : Bytes → Bool
unfolding ends_alnum tail_ok
name_ok [] = false
name_ok (c ∷ cs) = is_alnum c && tail_ok cs

-- typeRe.MatchString
unfoldable pub type_ok : Bytes → Bool
type_ok s =
    leb 1 (length s)
    && leb (length s) 32
    && all_of (λ c. is_upper c || is_lower c || is_digit c || c == b'_' || c == b'-') s

abbrev pub is_key_byte : ℕ → Bool
is_key_byte c = is_lower c || is_digit c || c == b'_'

-- selKey.MatchString
unfoldable pub key_ok : Bytes → Bool
key_ok s = leb 1 (length s) && leb (length s) 32 && all_of is_key_byte s

-- [^&=\s], where \s is [\t\n\f\r ]
abbrev pub is_value_byte : ℕ → Bool
is_value_byte c = not (c == b'&' || c == b'=' || c == 9 || c == 10 || c == 12 || c == 13 || c == 32)

-- selVal.MatchString: the bound counts characters
unfoldable pub value_ok : Unicode → Bytes → Bool
unfolding rune_count
value_ok u s = leb 1 (rune_count u s) && leb (rune_count u s) 64 && all_of is_value_byte s

-- ===== src/Query/Names.antt =====
-- The name pattern of resolver/internal/query/query.go against the rule that its comments and the
-- contract state.
use decentralized_dns.Base.{
  Bytes, [], ◌∷◌, Bool, false, not, ◌&&◌, leb, ◌==◌, length, all_of, ◌≡◌, refl, arith,
}
use decentralized_dns.Query.Grammar.{is_label, ends_alnum, name_ok}

abbrev first_ok : Bytes → Bool
first_ok [] = false
first_ok (c ∷ cs) = not (c == b'-')

abbrev last_ok : Bytes → Bool
last_ok [] = false
last_ok (c ∷ []) = not (c == b'-')
last_ok (c ∷ d ∷ cs) = last_ok (d ∷ cs)

-- "1-63 chars of [a-z0-9-], no edge hyphen"
abbrev pub name_rule : Bytes → Bool
name_rule s = leb 1 (length s) && leb (length s) 63 && all_of is_label s && first_ok s && last_ok s

ends_alnum_lem : (s : Bytes) → ends_alnum s ≡ (all_of is_label s && last_ok s)
unfolding ends_alnum
ends_alnum_lem [] = refl
ends_alnum_lem (c ∷ []) = ground arith
ends_alnum_lem (c ∷ d ∷ cs) = ground (arith, ends_alnum_lem (d ∷ cs))

-- `ValidateName` accepts exactly the texts of 1 to 63 bytes of [a-z0-9-] that neither begin nor end
-- with a hyphen.
pub name_ok-name_rule : (s : Bytes) → name_ok s ≡ name_rule s
unfolding name_ok
name_ok-name_rule [] = refl
name_ok-name_rule (c ∷ []) = ground arith
name_ok-name_rule (c ∷ d ∷ cs) = ground (arith, ends_alnum_lem (d ∷ cs))

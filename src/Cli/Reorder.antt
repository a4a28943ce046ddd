-- ===== src/Cli/Reorder.antt =====
-- The command lines that reorder and the flag package of resolver/cmd/ddns/main.go read together.
use decentralized_dns.Base.{
  ℕ, Bytes, Bytes-discrete, List, [], ◌∷◌, ◌++◌, Bool, true, false, not, ◌&&◌, ◌==◌, none, some,
  codes, ◌≡◌, refl, sym, ap, ◌∙◌, append_assoc, append-nil, arith, if◌then◌else◌,
}
use decentralized_dns.Cli.Args.{
  trim_dashes, before_equals, has_equals, is_flag, terminator, takes_next, alone, positional, token,
  scan, reorder, FlagSet, parsed, stop, split_value, parse_name, parse_one, parse_from, parse,
}

-- a flag is spelled with one dash or with two
pub data Dashes : Type 0 where
  single double : Dashes

-- a part of a command line: a flag with its value in the next argument or after '=', a Boolean flag
-- alone, or an argument
pub data Item : Type 0 where
  valued inline : Dashes → Bytes → Bytes → Item
  switch : Dashes → Bytes → Item
  plain : Bytes → Item

abbrev pub dashed : Dashes → Bytes → Bytes
dashed single n = b'-' ∷ n
dashed double n = b'-' ∷ b'-' ∷ n

abbrev pub tokens : List Item → List Bytes
tokens [] = []
tokens (valued d n v ∷ items) = dashed d n ∷ v ∷ tokens items
tokens (inline d n v ∷ items) = dashed d (n ++ (b'=' ∷ v)) ∷ tokens items
tokens (switch d n ∷ items) = dashed d n ∷ tokens items
tokens (plain p ∷ items) = p ∷ tokens items

-- the assignments that the items ask for, and the other arguments, each in their order
abbrev pub assignments : List Item → List (Bytes × Bytes)
assignments [] = []
assignments (valued d n v ∷ items) = (n, v) ∷ assignments items
assignments (inline d n v ∷ items) = (n, v) ∷ assignments items
assignments (switch d n ∷ items) = (n, codes "true") ∷ assignments items
assignments (plain p ∷ items) = assignments items

abbrev pub arguments : List Item → List Bytes
arguments [] = []
arguments (plain p ∷ items) = p ∷ arguments items
arguments (valued d n v ∷ items) = arguments items
arguments (inline d n v ∷ items) = arguments items
arguments (switch d n ∷ items) = arguments items

abbrev pub is_name : Bytes → Bool
is_name [] = false
is_name (c ∷ cs) = not (c == b'-') && not (has_equals (c ∷ cs))

-- An item that the flag set takes, with reorder told which of the flags are Boolean.
abbrev pub Takes : FlagSet → (Bytes → Bool) → Item → Type 0
Takes f bools (valued d n v) =
    (is_name n ≡ true) × (bools n ≡ false) × (f.formal n ≡ some false) × (f.accepts n v ≡ true)
Takes f bools (inline d n v) =
    (is_name n ≡ true) × (b : Bool) × (f.formal n ≡ some b) × (f.accepts n v ≡ true)
Takes f bools (switch d n) =
    (is_name n ≡ true)
    × (bools n ≡ true)
    × (f.formal n ≡ some true)
    × (f.accepts n (codes "true") ≡ true)
Takes f bools (plain p) = is_flag p ≡ false

abbrev pub TakesAll : FlagSet → (Bytes → Bool) → List Item → Type 0
TakesAll f bools [] = Unit {0}
TakesAll f bools (i ∷ items) = Takes f bools i × TakesAll f bools items

-- the tokens of the flags alone
abbrev flag_tokens : List Item → List Bytes
flag_tokens [] = []
flag_tokens (valued d n v ∷ items) = dashed d n ∷ v ∷ flag_tokens items
flag_tokens (inline d n v ∷ items) = dashed d (n ++ (b'=' ∷ v)) ∷ flag_tokens items
flag_tokens (switch d n ∷ items) = dashed d n ∷ flag_tokens items
flag_tokens (plain p ∷ items) = flag_tokens items

before_equals-name : (n : Bytes) → has_equals n ≡ false → before_equals n ≡ n
unfolding before_equals
before_equals-name [] h = refl
before_equals-name (c ∷ cs) h = ground (arith, before_equals-name cs)

has_equals-append : (n v : Bytes) → has_equals (n ++ (b'=' ∷ v)) ≡ true
has_equals-append [] v = refl
has_equals-append (c ∷ cs) v = ground (arith, has_equals-append cs v)

split_value-name : (n : Bytes) → has_equals n ≡ false → split_value n ≡ none
unfolding split_value
split_value-name [] h = refl
split_value-name (c ∷ cs) h = ground (arith, split_value-name cs)

split_value-append :
    (n v : Bytes) → has_equals n ≡ false → split_value (n ++ (b'=' ∷ v)) ≡ some (n, v)
unfolding split_value
split_value-append [] v h = refl
split_value-append (c ∷ cs) v h = ground (arith, split_value-append cs v)

name_parts :
    (c : ℕ) (cs : Bytes)
    → is_name (c ∷ cs) ≡ true
    → ((c == b'-') ≡ false) × ((c == b'=') ≡ false) × (has_equals cs ≡ false)
name_parts c cs h = ground arith

trim_dashes-dashed : (d : Dashes) (n : Bytes) → is_name n ≡ true → trim_dashes (dashed d n) ≡ n
unfolding trim_dashes
trim_dashes-dashed d [] h = cc
trim_dashes-dashed single (c ∷ cs) h = rw ((name_parts c cs h).0) refl
trim_dashes-dashed double (c ∷ cs) h = rw ((name_parts c cs h).0) refl

name-no_equals : (n : Bytes) → is_name n ≡ true → has_equals n ≡ false
name-no_equals [] h = cc
name-no_equals (c ∷ cs) h = let (_, p, q) = name_parts c cs h in rw (p, q) refl

token-name :
    (bools : Bytes → Bool) (d : Dashes) (n : Bytes)
    → is_name n ≡ true
    → token bools (dashed d n) ≡ (if bools n then alone else takes_next)
unfolding token
token-name bools d [] h = cc
token-name bools single (c ∷ cs) h = ground (
  arith,
  trim_dashes-dashed single (c ∷ cs) h,
  before_equals-name (c ∷ cs) (name-no_equals (c ∷ cs) h),
  name-no_equals (c ∷ cs) h,
  name_parts c cs h,
)
token-name bools double (c ∷ cs) h = ground (
  arith,
  trim_dashes-dashed double (c ∷ cs) h,
  before_equals-name (c ∷ cs) (name-no_equals (c ∷ cs) h),
  name-no_equals (c ∷ cs) h,
)

token-inline :
    (bools : Bytes → Bool) (d : Dashes) (n v : Bytes)
    → is_name n ≡ true
    → token bools (dashed d (n ++ (b'=' ∷ v))) ≡ alone
unfolding token
token-inline bools d [] v h = cc
token-inline bools single (c ∷ cs) v h =
    ground (arith, has_equals-append (c ∷ cs) v, name_parts c cs h)
token-inline bools double (c ∷ cs) v h = ground (arith, has_equals-append (c ∷ cs) v)

token-plain : (bools : Bytes → Bool) (p : Bytes) → is_flag p ≡ false → token bools p ≡ positional
unfolding token Bytes-discrete
token-plain bools [] h = refl
token-plain bools (c ∷ []) h = ground arith
token-plain bools (c ∷ d ∷ ds) h = ground arith

-- reorder parts the tokens of flags from the other arguments.
scan-tokens :
    (f : FlagSet) (bools : Bytes → Bool) (items : List Item)
    → TakesAll f bools items
    → scan bools false (tokens items) ≡ (flag_tokens items, arguments items)
unfolding scan
scan-tokens f bools [] h = refl
scan-tokens f bools (valued d n v ∷ items) ((p, q, _, _), h) =
    rw (token-name bools d n p, q, scan, scan-tokens f bools items h) refl
scan-tokens f bools (inline d n v ∷ items) ((p, _, _, _), h) =
    rw (token-inline bools d n v p, scan, scan-tokens f bools items h) refl
scan-tokens f bools (switch d n ∷ items) ((p, q, _, _), h) =
    rw (token-name bools d n p, q, scan, scan-tokens f bools items h) refl
scan-tokens f bools (plain a ∷ items) (p, h) =
    rw (token-plain bools a p, scan, scan-tokens f bools items h) refl

parse_one-name :
    (f : FlagSet) (d : Dashes) (n : Bytes)
    → is_name n ≡ true
    → parse_one f (dashed d n) ≡ parse_name f n none
unfolding parse_one
parse_one-name f d [] h = cc
parse_one-name f single (c ∷ cs) h =
    let (p, q, e) = name_parts c cs h in rw (p, q, split_value-name cs e) refl
parse_one-name f double (c ∷ cs) h =
    let (p, q, e) = name_parts c cs h in rw (p, q, split_value-name cs e) refl

parse_one-inline :
    (f : FlagSet) (d : Dashes) (n v : Bytes)
    → is_name n ≡ true
    → parse_one f (dashed d (n ++ (b'=' ∷ v))) ≡ parse_name f n (some v)
unfolding parse_one
parse_one-inline f d [] v h = cc
parse_one-inline f single (c ∷ cs) v h =
    let (p, q, e) = name_parts c cs h in rw (p, q, split_value-append cs v e) refl
parse_one-inline f double (c ∷ cs) v h =
    let (p, q, e) = name_parts c cs h in rw (p, q, split_value-append cs v e) refl

parse_one-plain : (f : FlagSet) (p : Bytes) → is_flag p ≡ false → parse_one f p ≡ stop
unfolding parse_one
parse_one-plain f [] h = refl
parse_one-plain f (c ∷ []) h = refl
parse_one-plain f (c ∷ d ∷ ds) h = rw h refl

-- no flag stands first among the arguments of the items
parse_from-arguments :
    (f : FlagSet) (bools : Bytes → Bool) (acc : List (Bytes × Bytes)) (items : List Item)
    → TakesAll f bools items
    → parse_from f acc none (arguments items) ≡ parsed acc (arguments items)
unfolding parse_from
parse_from-arguments f bools acc [] h = refl
parse_from-arguments f bools acc (valued d n v ∷ items) (_, h) =
    parse_from-arguments f bools acc items h
parse_from-arguments f bools acc (inline d n v ∷ items) (_, h) =
    parse_from-arguments f bools acc items h
parse_from-arguments f bools acc (switch d n ∷ items) (_, h) =
    parse_from-arguments f bools acc items h
parse_from-arguments f bools acc (plain a ∷ items) (p, h) =
    rw (parse_one-plain f a p, parse_from) refl

parse_from-flag_tokens :
    (f : FlagSet) (bools : Bytes → Bool) (acc : List (Bytes × Bytes)) (items : List Item)
    (rest : List Bytes)
    → TakesAll f bools items
    → parse_from f acc none (flag_tokens items ++ rest)
      ≡ parse_from f (acc ++ assignments items) none rest
unfolding parse_from parse_name
parse_from-flag_tokens f bools acc [] rest h =
    ap (λ a. parse_from f a none rest) (sym (append-nil acc))
parse_from-flag_tokens f bools acc (valued d n v ∷ items) rest ((p, _, e, k), h) =
    rw (parse_one-name f d n p, parse_from, e, k)
      (parse_from-flag_tokens f bools (acc ++ ((n, v) ∷ [])) items rest h
        ∙ ap (λ a. parse_from f a none rest) (append_assoc acc ((n, v) ∷ []) (assignments items)))
parse_from-flag_tokens f bools acc (inline d n v ∷ items) rest ((p, b, e, k), h) =
    rw (parse_one-inline f d n v p, parse_from, e, k)
      (parse_from-flag_tokens f bools (acc ++ ((n, v) ∷ [])) items rest h
        ∙ ap (λ a. parse_from f a none rest) (append_assoc acc ((n, v) ∷ []) (assignments items)))
parse_from-flag_tokens f bools acc (switch d n ∷ items) rest ((p, _, e, k), h) =
    rw (parse_one-name f d n p, parse_from, e, k)
      (parse_from-flag_tokens f bools (acc ++ ((n, codes "true") ∷ [])) items rest h
        ∙ ap (λ a. parse_from f a none rest)
            (append_assoc acc ((n, codes "true") ∷ []) (assignments items)))
parse_from-flag_tokens f bools acc (plain a ∷ items) rest (_, h) =
    parse_from-flag_tokens f bools acc items rest h

-- Flags may stand anywhere on the command line: after `reorder`, told which flags are Boolean, the
-- flag package reads every interleaving of flags that it takes, with one dash or two and with the
-- value in the next argument or after '=', and of arguments that do not look like flags into the
-- assignments and the arguments, each in the order in which they were written.
pub parse-reorder :
    (f : FlagSet) (bools : Bytes → Bool) (items : List Item)
    → TakesAll f bools items
    → parse f (reorder bools (tokens items)) ≡ parsed (assignments items) (arguments items)
unfolding parse reorder
parse-reorder f bools items h = rw (scan-tokens f bools items h) (
    parse_from-flag_tokens f bools [] items (arguments items) h
    ∙ parse_from-arguments f bools (assignments items) items h)

-- `reorder` drops the terminator "--": what follows it is read as arguments by the flag package
-- alone, but after `reorder` it is read as if the terminator were not there.
pub parse-reorder-terminator :
    (f : FlagSet) (bools : Bytes → Bool) (rest : List Bytes)
    → (parse f (terminator ∷ rest) ≡ parsed [] rest)
      × (parse f (reorder bools (terminator ∷ rest)) ≡ parse f rest)
unfolding parse reorder Bytes-discrete
parse-reorder-terminator f bools rest = (refl, refl)

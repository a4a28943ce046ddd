-- ===== src/Cli/Args.antt =====
-- reorder and needArg of resolver/cmd/ddns/main.go, and the Parse of Go's flag package that reads
-- what reorder returns.
use decentralized_dns.Base.{
  ℕ, Bytes, Bytes-discrete, List, [], ◌∷◌, ◌++◌, Bool, true, false, not, ◌||◌, ◌==◌, Option, none,
  some, ite, if◌then◌else◌, codes, any_of,
}

-- strings.TrimLeft(a, "-")
unfoldable pub trim_dashes : Bytes → Bytes
trim_dashes [] = []
trim_dashes (c ∷ cs) = if c == b'-' then trim_dashes cs else c ∷ cs

-- strings.SplitN(s, "=", 2)[0]
unfoldable pub before_equals : Bytes → Bytes
before_equals [] = []
before_equals (c ∷ cs) = if c == b'=' then [] else c ∷ before_equals cs

abbrev pub has_equals : Bytes → Bool
has_equals = any_of (λ c. c == b'=')

-- len(a) > 1 && a[0] == '-'
abbrev pub is_flag : Bytes → Bool
is_flag (c ∷ d ∷ ds) = c == b'-'
is_flag _ = false

abbrev pub terminator : Bytes
terminator = codes "--"

-- what the loop of reorder makes of a token
pub data Token : Type 0 where
  ends takes_next alone positional : Token

unfoldable pub token : (Bytes → Bool) → Bytes → Token
unfolding trim_dashes before_equals
token bools a = ite (Bytes-discrete a terminator) ends (
    if is_flag a
    then if has_equals a || bools (before_equals (trim_dashes a)) then alone else takes_next
    else positional)

abbrev pub cons_flag : Bytes → List Bytes × List Bytes → List Bytes × List Bytes
cons_flag a (flags, pos) = (a ∷ flags, pos)

abbrev pub cons_pos : Bytes → List Bytes × List Bytes → List Bytes × List Bytes
cons_pos a (flags, pos) = (flags, a ∷ pos)

-- The loop of reorder; `true` while the next token is taken with the flag before it.
unfoldable pub scan : (Bytes → Bool) → Bool → List Bytes → List Bytes × List Bytes
scan bools waits [] = ([], [])
scan bools true (a ∷ rest) = cons_flag a (scan bools false rest)
scan bools false (a ∷ rest) = elim (token bools a) [
  | ends ↦ ([], rest)
  | takes_next ↦ cons_flag a (scan bools true rest)
  | alone ↦ cons_flag a (scan bools false rest)
  | positional ↦ cons_pos a (scan bools false rest)
]

-- reorder, with the set of the flags that take no value
unfoldable pub reorder : (Bytes → Bool) → List Bytes → List Bytes
unfolding scan token
reorder bools args = let (flags, pos) = scan bools false args in flags ++ pos

-- The flags of a FlagSet: whether a name is a flag's, and then whether it is Boolean; and whether
-- its Value takes a text.
pub record FlagSet : Type 0 where
  pub formal : Bytes → Option Bool
  pub accepts : Bytes → Bytes → Bool

-- what FlagSet.Parse leaves: the assignments in their order and the other arguments, or an exit
pub data Parsed : Type 0 where
  parsed : List (Bytes × Bytes) → List Bytes → Parsed
  exited : ℕ → Parsed

-- what parseOne does with one argument
pub data Parse : Type 0 where
  stop cut_off : Parse
  assign : Bytes → Bytes → Parse
  wants : Bytes → Parse
  fail : ℕ → Parse

-- the text after the first '=' from the second byte of a name on
unfoldable pub split_value : Bytes → Option (Bytes × Bytes)
split_value [] = none
split_value (c ∷ cs) =
    if c == b'='
    then some ([], cs)
    else elim (split_value cs) [ none ↦ none | some (n, v) ↦ some (c ∷ n, v) ]

abbrev pub set_flag : FlagSet → Bytes → Bytes → Parse
set_flag f n v = if f.accepts n v then assign n v else fail 2

-- A flag's name, with the value after '=' if it has one; an unknown flag is help or an error.
unfoldable pub parse_name : FlagSet → Bytes → Option Bytes → Parse
parse_name f n v = elim (f.formal n) [
  | none ↦
      if ite (Bytes-discrete n (codes "help")) true (ite (Bytes-discrete n (codes "h")) true false)
      then fail 0
      else fail 2
  | some is_bool ↦ elim v [
    | some text ↦ set_flag f n text
    | none ↦ if is_bool then set_flag f n (codes "true") else wants n
  ]
]

-- the argument without its one or two dashes
unfoldable pub parse_body : FlagSet → Bytes → Parse
unfolding parse_name split_value
parse_body f [] = fail 2
parse_body f (c ∷ cs) = if c == b'-' || c == b'=' then fail 2 else elim (split_value cs) [
  | none ↦ parse_name f (c ∷ cs) none
  | some (n, v) ↦ parse_name f (c ∷ n) (some v)
]

unfoldable pub parse_one : FlagSet → Bytes → Parse
unfolding parse_body
parse_one f [] = stop
parse_one f (c ∷ []) = stop
parse_one f (c ∷ d ∷ ds) =
    if not (c == b'-')
    then stop
    else if not (d == b'-')
    then parse_body f (d ∷ ds)
    else elim ds [ [] ↦ cut_off | e ∷ es ↦ parse_body f (e ∷ es) ]

-- FlagSet.Parse under ExitOnError, after the given assignments; a flag that waits takes the next
-- argument.
unfoldable pub parse_from : FlagSet → List (Bytes × Bytes) → Option Bytes → List Bytes → Parsed
parse_from f acc (some n) [] = exited 2
parse_from f acc (some n) (v ∷ rest) =
    let go = parse_from f (acc ++ ((n, v) ∷ [])) none rest in if f.accepts n v then go else exited 2
parse_from f acc none [] = parsed acc []
parse_from f acc none (a ∷ rest) = elim (parse_one f a) [
  | stop ↦ parsed acc (a ∷ rest)
  | cut_off ↦ parsed acc rest
  | assign n v ↦ parse_from f (acc ++ ((n, v) ∷ [])) none rest
  | wants n ↦ parse_from f acc (some n) rest
  | fail code ↦ exited code
]

unfoldable pub parse : FlagSet → List Bytes → Parsed
unfolding parse_from parse_one
parse f args = parse_from f [] none args

-- the value of a flag: its last assignment, or its default
unfoldable pub flag_value : Bytes → Bytes → List (Bytes × Bytes) → Bytes
flag_value name default [] = default
flag_value name default ((n, v) ∷ rest) =
    flag_value name (ite (Bytes-discrete n name) v default) rest

-- ===== src/Cli/Fields.antt =====
-- parsePairs, splitCSV, fieldsString and bracket of resolver/cmd/ddns/main.go.
use decentralized_dns.Base.{
  ℕ, Bytes, Bytes-discrete, List, [], ◌∷◌, ◌++◌, Option, none, some, ite, codes, length, ◌≡◌, refl,
  sym, ap, ◌∙◌, Option-cases, inl, inr, arith, suc, append_assoc, append-nil,
}
use decentralized_dns.Base.Text.{Unicode, trim_space, split, join, cut, cut_at}

-- parsePairs; `none` is the exit on a field without '='.
unfoldable pub parse_pairs : List Bytes → Option (List Bytes × List Bytes)
parse_pairs [] = some ([], [])
parse_pairs (a ∷ rest) = elim (cut b'=' a) [
  | none ↦ none
  | some (k, v) ↦ elim (parse_pairs rest) [
    | none ↦ none
    | some (names, values) ↦ some (k ∷ names, v ∷ values)
  ]
]

unfoldable pub keep_nonempty : Unicode → List Bytes → List Bytes
keep_nonempty u [] = []
keep_nonempty u (p ∷ ps) =
    let rest = keep_nonempty u ps in
    ite (Bytes-discrete (trim_space u p) []) rest (trim_space u p ∷ rest)

unfoldable pub split_csv : Unicode → Bytes → List Bytes
unfolding keep_nonempty
split_csv u s = ite (Bytes-discrete (trim_space u s) []) [] (keep_nonempty u (split b',' s))

-- The loop of fieldsString after the first field; `none` is the panic of an index out of range.
unfoldable pub more_fields : List Bytes → List Bytes → Option Bytes
more_fields [] values = some []
more_fields (n ∷ names) [] = none
more_fields (n ∷ names) (v ∷ values) = elim (more_fields names values) [
  | none ↦ none
  | some text ↦ some (b' ' ∷ (n ++ (b'=' ∷ (v ++ text))))
]

unfoldable pub fields_string : List Bytes → List Bytes → Option Bytes
unfolding more_fields
fields_string [] values = some []
fields_string (n ∷ names) [] = none
fields_string (n ∷ names) (v ∷ values) = elim (more_fields names values) [
  | none ↦ none
  | some text ↦ some (n ++ (b'=' ∷ (v ++ text)))
]

unfoldable pub bracket : Bytes → Bytes
bracket sel = ite (Bytes-discrete sel []) [] (codes " [" ++ (sel ++ codes "]"))

-- what is cut at a separator is the two parts around it
pub cut-some : (sep : ℕ) (s a b : Bytes) → cut sep s ≡ some (a, b) → s ≡ a ++ (sep ∷ b)
unfolding cut cut_at
cut-some sep [] a b h = cc
cut-some sep (c ∷ cs) a b h = elim (Option-cases (cut sep cs)) [
  | inl e ↦ ground (arith, e)
  | inr ((x, y), e) ↦ ground (arith, e, cut-some sep cs x y e)
]

-- the tokens, each after a blank
abbrev pub spaced : List Bytes → Bytes
spaced [] = []
spaced (a ∷ rest) = b' ' ∷ (a ++ spaced rest)

-- one step of parse_pairs, undone
parse_pairs-cons :
    (a : Bytes) (rest names values : List Bytes)
    → parse_pairs (a ∷ rest) ≡ some (names, values)
    → (k v : Bytes) × (ns vs : List Bytes) × (cut b'=' a ≡ some (k, v))
      × (parse_pairs rest ≡ some (ns, vs))
      × (k ∷ ns ≡ names)
      × (v ∷ vs ≡ values)
unfolding parse_pairs
parse_pairs-cons a rest names values h = elim (Option-cases (cut b'=' a)) [
  | inl e ↦ absurd (ground (arith, e))
  | inr ((k, v), e) ↦ elim (Option-cases (parse_pairs rest)) [
    | inl f ↦ absurd (ground (arith, e, f))
    | inr ((ns, vs), f) ↦ (k, v, ns, vs, e, f, ground (arith, e, f), ground (arith, e, f))
  ]
]

parse_pairs-more :
    (args names values : List Bytes)
    → parse_pairs args ≡ some (names, values)
    → (length names ≡ length values) × (more_fields names values ≡ some (spaced args))
unfolding parse_pairs more_fields
parse_pairs-more [] names values h =
    let p : [] ≡ names = cc in let q : [] ≡ values = cc in rw (← p, ← q) (refl, refl)
parse_pairs-more (a ∷ rest) names values h =
    let (k, v, ns, vs, e, f, p, q) = parse_pairs-cons a rest names values h in
    let (same, text) = parse_pairs-more rest ns vs f in
    rw (← p, ← q, more_fields, text, cut-some b'=' a k v e)
      (ap suc same, ap (λ s. some (b' ' ∷ s)) (sym (append_assoc k (b'=' ∷ v) (spaced rest))))

more_fields-fields_string :
    (n v : Bytes) (names values : List Bytes) (text : Bytes)
    → more_fields (n ∷ names) (v ∷ values) ≡ some (b' ' ∷ text)
    → fields_string (n ∷ names) (v ∷ values) ≡ some text
unfolding more_fields fields_string
more_fields-fields_string n v names values text h = elim (Option-cases (more_fields names values)) [
  | inl e ↦ absurd (ground (arith, e))
  | inr (s, e) ↦ ground (arith, e)
]

join-spaced : (a : Bytes) (rest : List Bytes) → join b' ' (a ∷ rest) ≡ a ++ spaced rest
unfolding join
join-spaced a [] = sym (append-nil a)
join-spaced a (b ∷ rest) = ap (λ s. a ++ (b' ' ∷ s)) (join-spaced b rest)

fields_string-nil :
    (names values : List Bytes)
    → parse_pairs [] ≡ some (names, values)
    → (length names ≡ length values) × (fields_string names values ≡ some [])
unfolding parse_pairs fields_string
fields_string-nil names values h =
    let p : [] ≡ names = cc in let q : [] ≡ values = cc in rw (← p, ← q) (refl, refl)

-- When the fields of a command line parse, there is a value for each name, and `fieldsString` writes
-- the fields as they were given, with a blank between two of them.
pub fields_string-parse_pairs :
    (args names values : List Bytes)
    → parse_pairs args ≡ some (names, values)
    → (length names ≡ length values) × (fields_string names values ≡ some (join b' ' args))
unfolding join
fields_string-parse_pairs [] names values h = fields_string-nil names values h
fields_string-parse_pairs (a ∷ rest) names values h =
    let (k, v, ns, vs, e, f, p, q) = parse_pairs-cons a rest names values h in
    let (same, text) = parse_pairs-more (a ∷ rest) names values h in
    (
      same,
      rw (← p, ← q)
          (more_fields-fields_string k v ns vs (a ++ spaced rest) (rw (p, q) text)
            ∙ ap some (sym (join-spaced a rest))),
    )

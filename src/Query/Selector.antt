-- ===== src/Query/Selector.antt =====
-- resolver/internal/query/query.go: ParsePairs, CanonicalSelector, ParseSelectorString and New.
use decentralized_dns.Base.{
  Bytes, Bytes-discrete, List, [], ◌∷◌, ◌++◌, map, Bool, true, false, not, ◌&&◌, ◌||◌, Option, none,
  some, ◌≡◌, refl, ltb, ◌==◌, if◌then◌else◌, ite, codes,
}
use decentralized_dns.Base.Ints.{ℤ, pos, negsuc}
use decentralized_dns.Base.Text.{
  Unicode, trim_space, to_lower, to_upper, split, join, cut, atoi, itoa,
}
use decentralized_dns.Query.Grammar.{name_ok, type_ok, key_ok, value_ok}

pub data Error : Type 0 where
  invalid_name invalid_type invalid_key invalid_port invalid_transport : Error
  invalid_service invalid_value duplicate_key invalid_fragment : Error

-- a value, or an error
pub data Result {ℓ} (A : Type ℓ) : Type ℓ where
  err : Error → Result A
  ok : A → Result A

-- a test that stands for an early return with an error
abbrev pub guard : (test : Bool) (why : Error) → Result (Unit {0})
guard false why = err why
guard true why = ok tt

-- the rest of a function, after a call that may fail
infixl 5 ◌>>=◌
abbrev pub ◌>>=◌ {ℓ κ} : {X : Type ℓ} {Y : Type κ} → Result X → (X → Result Y) → Result Y
err why >>= next = err why
ok x >>= next = next x

infixl 5 ◌>>◌
abbrev pub ◌>>◌ {ℓ} : {Y : Type ℓ} (first : Result (Unit {0})) → Result Y → Result Y
first >> next = first >>= λ done. next

-- A chain that ends with a value went on from a value of its first call.
pub >>=-eq-ok {ℓ κ} :
    {X : Type ℓ} {Y : Type κ} (first : Result X) (next : X → Result Y) {y : Y}
    → (first >>= next) ≡ ok y
    → (x : X) × (first ≡ ok x) × (next x ≡ ok y)
>>=-eq-ok (err why) next fails = cc
>>=-eq-ok (ok x) next rest = (x, refl, rest)

-- query.Query
pub record Query : Type 0 where
  pub name : Bytes
  pub rtype : Bytes
  pub selector : Bytes

abbrev pub Pair : Type 0
Pair = Bytes × Bytes

-- whether a map has the key
unfoldable pub has_key : Bytes → List Pair → Bool
has_key k [] = false
has_key k ((j, v) ∷ m) = ite (Bytes-discrete k j) true (has_key k m)

-- a membership test in one of the maps of known words
unfoldable pub one_of : List Bytes → Bytes → Bool
one_of [] s = false
one_of (w ∷ ws) s = ite (Bytes-discrete s w) true (one_of ws s)

abbrev pub known_transports : List Bytes
known_transports = codes "UDP" ∷ codes "TCP" ∷ codes "QUIC" ∷ []

abbrev pub known_services : List Bytes
known_services = codes "HTTP" ∷ codes "SMTP" ∷ []

-- the `port` case: a number that Atoi reads, from 1 to 65535
unfoldable pub canon_port : Option ℤ → Result Bytes
canon_port none = err invalid_port
canon_port (some (negsuc n)) = err invalid_port
canon_port (some (pos n)) = if ltb n 1 || ltb 65535 n then err invalid_port else ok (itoa n)

-- the switch of CanonicalSelector, on the trimmed value
unfoldable pub canon_value : Unicode → Bytes → Bytes → Result Bytes
unfolding canon_port one_of
canon_value u k v = ite (Bytes-discrete k (codes "port")) (canon_port (atoi v)) (
    ite (Bytes-discrete k (codes "transport"))
      (if one_of known_transports (to_upper u v) then ok (to_upper u v) else err invalid_transport)
      (ite (Bytes-discrete k (codes "service"))
        (if one_of known_services (to_upper u v) then ok (to_upper u v) else err invalid_service)
        (if value_ok u v then ok v else err invalid_value)))

-- the body of the loop of CanonicalSelector, up to the duplicate test
unfoldable pub canon_pair : Unicode → Pair → Result Pair
unfolding canon_value
canon_pair u (k, v) =
    let key = to_lower u (trim_space u k) in
    if key_ok key
    then (canon_value u key (trim_space u v) >>= λ value. ok (key, value))
    else err invalid_key

-- the loop; `canon` holds what is canonical so far
unfoldable pub canon_pairs : Unicode → List Pair → List Pair → Result (List Pair)
unfolding canon_pair has_key
canon_pairs u canon [] = ok []
canon_pairs u canon (p ∷ ps) = do
  q ← canon_pair u p
  guard (not (has_key q.0 canon)) duplicate_key
  rest ← canon_pairs u (q ∷ canon) ps
  ok (q ∷ rest)

-- the byte order of sort.Strings
unfoldable pub bytes_le : Bytes → Bytes → Bool
bytes_le [] t = true
bytes_le (c ∷ cs) [] = false
bytes_le (c ∷ cs) (d ∷ ds) = ltb c d || (c == d && bytes_le cs ds)

-- sort.Strings on the keys, each with its value. The keys are distinct, so the order is unique and
-- the algorithm does not matter.
unfoldable pub insert_sorted : Pair → List Pair → List Pair
unfolding bytes_le
insert_sorted p [] = p ∷ []
insert_sorted p (q ∷ qs) = if bytes_le p.0 q.0 then p ∷ q ∷ qs else q ∷ insert_sorted p qs

unfoldable pub sort_pairs : List Pair → List Pair
unfolding insert_sorted
sort_pairs [] = []
sort_pairs (p ∷ ps) = insert_sorted p (sort_pairs ps)

-- k + "=" + canon[k]
abbrev pub render : Pair → Bytes
render (k, v) = k ++ (b'=' ∷ v)

unfoldable pub canonical_selector : Unicode → List Pair → Result Bytes
unfolding canon_pairs sort_pairs
canonical_selector u [] = ok []
canonical_selector u (p ∷ ps) =
    canon_pairs u [] (p ∷ ps) >>= λ canon. ok (join b'&' (map render (sort_pairs canon)))

-- the loop of ParsePairs over the parts; `pairs` holds the pairs so far
unfoldable pub parse_parts : Unicode → List Pair → List Bytes → Result (List Pair)
parse_parts u pairs [] = ok []
parse_parts u pairs (part ∷ parts) = elim (cut b'=' part) [
  | none ↦ err invalid_fragment
  | some (k, v) ↦ do
    guard (not (has_key (to_lower u k) pairs)) duplicate_key
    rest ← parse_parts u ((to_lower u k, v) ∷ pairs) parts
    ok ((to_lower u k, v) ∷ rest)
]

unfoldable pub parse_pairs : Unicode → Bytes → Result (List Pair)
unfolding parse_parts
parse_pairs u raw =
    ite (Bytes-discrete (trim_space u raw) []) (ok []) (parse_parts u [] (split b'&' raw))

unfoldable pub parse_selector_string : Unicode → Bytes → Result Bytes
parse_selector_string u raw = do pairs ← parse_pairs u raw; canonical_selector u pairs

unfoldable pub new : Unicode → Bytes → Bytes → List Pair → Result Query
new u name record_type selector_pairs = do
  guard (name_ok name) invalid_name
  guard (type_ok record_type) invalid_type
  sel ← canonical_selector u selector_pairs
  ok (record { name = name; rtype = record_type; selector = sel })

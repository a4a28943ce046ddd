-- ===== src/Server/Web.antt =====
-- resolver/internal/server/web.go: which selectors the web gateway tries, and what it then has.
use decentralized_dns.Base.{
  Bytes, List, [], ◌∷◌, Bool, true, false, Option, none, some, if◌then◌else◌, codes, ◌≡◌, refl,
  arith,
}
use decentralized_dns.Base.Text.{Unicode}
use decentralized_dns.Query.Grammar.{name_ok}
use decentralized_dns.Query.Selector
use decentralized_dns.Query.Selector.{
  Query, Pair, parse_pairs, Result, ok, err, guard, invalid_name,
}
use decentralized_dns.Server.Resource.{Outcome, served, refused, VerifiedResource, no_match}

-- the query that the gateway makes of a selector
unfoldable pub web_query : Unicode → Bytes → Bytes → Option Query
web_query u name sel = elim (parse_pairs u sel) [
  | err e ↦ none
  | ok pairs ↦ elim (Selector.new u name (codes "ResourceRef") pairs) [
    | err e ↦ none
    | ok q ↦ some q
  ]
]

-- selectorsToTry
unfoldable pub selectors_to_try : Bytes → List Bytes
selectors_to_try [] = codes "service=HTTP" ∷ [] ∷ []
selectors_to_try (c ∷ cs) = (c ∷ cs) ∷ []

-- whether the loop goes on after an outcome
abbrev pub goes_on : Outcome VerifiedResource → Bool
goes_on (refused no_match) = true
goes_on (refused e) = false
goes_on (served v) = false

-- The loop; `last` is the pair (vr, rerr) so far, `none` while both are nil.
unfoldable pub web_loop :
    Unicode
    → Bytes
    → (Query → Outcome VerifiedResource)
    → Option (Outcome VerifiedResource)
    → List Bytes
    → Option (Outcome VerifiedResource)
unfolding web_query
web_loop u name fetch last [] = last
web_loop u name fetch last (sel ∷ sels) = elim (web_query u name sel) [
  | none ↦ web_loop u name fetch last sels
  | some q ↦
      let next = web_loop u name fetch (some (fetch q)) sels in
      if goes_on (fetch q) then next else some (fetch q)
]

-- What the rest of handleWeb works on; `none` is the dereference of a nil resource.
unfoldable pub handle_web :
    Unicode → Bytes → Bytes → (Query → Outcome VerifiedResource) → Option (Outcome VerifiedResource)
unfolding web_loop selectors_to_try
handle_web u name selector fetch = web_loop u name fetch none (selectors_to_try selector)

web_query-bad_name :
    (u : Unicode) (name sel : Bytes) → name_ok name ≡ false → web_query u name sel ≡ none
unfolding web_query Selector.new
web_query-bad_name u name sel h = ground (arith, h)

web_loop-bad_name :
    (u : Unicode) (name : Bytes) (fetch : Query → Outcome VerifiedResource)
    (last : Option (Outcome VerifiedResource)) (sels : List Bytes)
    → name_ok name ≡ false
    → web_loop u name fetch last sels ≡ last
unfolding web_loop
web_loop-bad_name u name fetch last [] h = refl
web_loop-bad_name u name fetch last (sel ∷ sels) h =
    rw (web_query-bad_name u name sel h, web_loop) (web_loop-bad_name u name fetch last sels h)

-- With a name that is not valid, the loop of the gateway ends without a resource and without an
-- error, whatever the selector: the code after it dereferences a nil resource.
pub handle_web-bad_name :
    (u : Unicode) (name selector : Bytes) (fetch : Query → Outcome VerifiedResource)
    → name_ok name ≡ false
    → handle_web u name selector fetch ≡ none
unfolding handle_web
handle_web-bad_name u name selector fetch h =
    web_loop-bad_name u name fetch none (selectors_to_try selector) h

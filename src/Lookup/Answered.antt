-- ===== src/Lookup/Answered.antt =====
-- A query from resolver/cmd/ddns-lookup/main.go through resolver/internal/server/rest.go and back.

use decentralized_dns.Base.{
  Bytes, Bytes-discrete, List, Bool, true, Option, none, some, if_pos, ◌≡◌, refl, sym, ap, ◌∙◌,
  Option-cases, inl, inr, arith,
}
use decentralized_dns.Base.Text.{Unicode}
use decentralized_dns.Base.TextLaws.{UnicodeLaws}
use decentralized_dns.Chain.Types.{Record, ResolveResult}
use decentralized_dns.Query.Selector
use decentralized_dns.Query.Selector.{Query, Pair}
use decentralized_dns.Pki.Owner.{Secp, SliceSort, record_message, verify_owner_sig}
use decentralized_dns.Pki.Resource.{Signing, Envelope, seal_envelope, verify_envelope}
use decentralized_dns.Pki.Manifest.{verify_envelope-seal_envelope}
use decentralized_dns.Pki.Verify.{verify_owner_sig-Accepted}
use decentralized_dns.Zk.Pack.{Gnark}
use decentralized_dns.Lookup.Compare.{
  Decoding, Response, rebuilt, record_from_response, compare_messages, compare_record,
  diff_against_chain,
}
use decentralized_dns.Lookup.Client.{
  response_of, Mode, direct, discovered, owner_sig_holds, cross_check, check_proof, judge,
  right_resolver, lookup,
}
use decentralized_dns.Lookup.Honest.{
  sent, parse_resolve_query-sent, Texts, IsGenuine, record_from_response-match,
  verify_owner_sig-rebuilt, record_message-rebuilt,
}
use decentralized_dns.Server.Handle.{QueryResult, to_result}
use decentralized_dns.Server.Rest.{
  Params, parsed, parse_resolve_query, ResolveResponse, sealed, to_record_json, match,
  resolve_response, write_signed, handle_resolve,
}

-- what the chain answers the client when the resolver's result is from it
abbrev pub read_back : QueryResult → ResolveResult
read_back res = to_result (res.result.entry, res.result.owner, res.result.pub_key)

-- how the client reached the resolver, when the chain that it reads is the resolver's
pub data SameChain (res : QueryResult) : Mode → Type 0 where
  asked : SameChain res direct
  found_there : (key : Bytes) → SameChain res (discovered key (some (read_back res)))

module _ (c : Secp) (o : SliceSort) (g : Gnark) (sg : Signing) (d : Decoding)
    (address_hex : Bytes → Bytes) (texts : Texts c o g sg d address_hex) where
  abbrev answer_of : Query → QueryResult → Response
  answer_of q res =
      response_of (match sg address_hex q res) (to_record_json sg address_hex res.result.entry)

  abbrev body_of : QueryResult → Record
  body_of res =
      rebuilt (to_record_json sg address_hex res.result.entry) res.result.entry.owner_sig
        res.result.entry.commitment

  owner_sig_holds-eq :
      (name : Bytes) (resp : Response) (key : Bytes) (rec : Record)
      → d.decode resp.pub_key ≡ some key
      → record_from_response d resp ≡ some rec
      → verify_owner_sig c o name rec (d.hex_to_address resp.owner) key ≡ none
      → owner_sig_holds c o g sg d name resp ≡ true
  unfolding owner_sig_holds
  owner_sig_holds-eq name resp key rec e f h = rw (e, f, h, owner_sig_holds) refl

  diff_against_chain-there :
      (onchain : ResolveResult) (name : Bytes) (resp : Response)
      → onchain.entry.is_there ≡ true
      → diff_against_chain d o onchain name (some resp)
        ≡ compare_record d o onchain name resp (record_from_response d resp) (d.decode resp.pub_key)
  unfolding diff_against_chain
  diff_against_chain-there onchain name resp h = rw (h, diff_against_chain) refl

  module _ (q : Query) (res : QueryResult)
      (genuine : IsGenuine c o g sg d address_hex q.name res) where
    owner_back : d.hex_to_address (address_hex res.result.owner) ≡ res.result.owner
    owner_back = texts.hex_to_address-address_hex res.result.owner genuine.owner_length

    body_back : record_from_response d (answer_of q res) ≡ some (body_of res)
    body_back =
        record_from_response-match c o g sg d address_hex texts q res genuine.commitment_length

    owner_sig_holds-match : owner_sig_holds c o g sg d q.name (answer_of q res) ≡ true
    owner_sig_holds-match =
        owner_sig_holds-eq q.name (answer_of q res) res.result.pub_key (body_of res)
          (texts.decode-hex_encode res.result.pub_key) body_back
          (ap (λ a. verify_owner_sig c o q.name (body_of res) a res.result.pub_key) owner_back
            ∙ verify_owner_sig-rebuilt c o g sg d address_hex texts q.name res.result.entry
                res.result.owner res.result.pub_key
            ∙ genuine.is_signed)

    compare_messages-same :
        (x : Option Bytes) (m : Bytes) → x ≡ some m → compare_messages x x ≡ none
    unfolding compare_messages
    compare_messages-same none m h = cc
    compare_messages-same (some n) m h = if_pos (Bytes-discrete n n) refl _ _

    compare_record-same :
        compare_record d o
          (read_back res)
          q.name
          (answer_of q res)
          (some (body_of res))
          (some res.result.pub_key)
        ≡ compare_messages
            (record_message o q.name res.result.entry)
            (record_message o q.name (body_of res))
    unfolding compare_record to_record_json
    compare_record-same = ground (arith, owner_back)

    message_back : record_message o q.name (body_of res) ≡ record_message o q.name res.result.entry
    message_back = record_message-rebuilt c o g sg d address_hex texts q.name res.result.entry

    diff_against_chain-same :
        diff_against_chain d o (read_back res) q.name (some (answer_of q res)) ≡ none
    diff_against_chain-same =
        let accepted =
          verify_owner_sig-Accepted c o q.name res.result.entry res.result.owner res.result.pub_key
            genuine.is_signed in
        diff_against_chain-there (read_back res) q.name (answer_of q res) genuine.is_there
        ∙ ap
            (λ r.
              compare_record d o (read_back res) q.name (answer_of q res) r
                (d.decode (answer_of q res).pub_key))
            body_back
        ∙ ap (compare_record d o (read_back res) q.name (answer_of q res) (some (body_of res)))
            (texts.decode-hex_encode res.result.pub_key)
        ∙ compare_record-same
        ∙ ap (compare_messages (record_message o q.name res.result.entry)) message_back
        ∙ compare_messages-same (record_message o q.name res.result.entry) accepted.message
            accepted.is_message

    cross_check-same :
        (mode : Mode)
        → SameChain res mode
        → cross_check c o g sg d mode q.name (some (answer_of q res)) ≡ true
    unfolding cross_check
    cross_check-same _ asked = refl
    cross_check-same _ (found_there key) = rw (diff_against_chain-same, cross_check) refl

    judge-match :
        (mode : Mode)
        → SameChain res mode
        → judge c o g sg d mode q (match sg address_hex q res)
          ≡ check_proof c o g sg d
              (match sg address_hex q res)
              (to_record_json sg address_hex res.result.entry)
    unfolding judge
    judge-match mode same = rw (owner_sig_holds-match, cross_check-same mode same, judge) refl

    resolve_response-match :
        resolve_response sg address_hex q (some res) ≡ some (match sg address_hex q res)
    unfolding resolve_response
    resolve_response-match = ground (arith, genuine.is_found)

  lookup-eq :
      (equal_fold : Bytes → Bytes → Bool) (unmarshal : Bytes → Option ResolveResponse) (mode : Mode)
      (q : Query) (env : Envelope) (resp : ResolveResponse)
      → verify_envelope sg env ≡ none
      → right_resolver c o g sg d equal_fold mode env.resolver ≡ true
      → unmarshal env.contents ≡ some resp
      → lookup c o g sg d equal_fold unmarshal mode q (some env) ≡ judge c o g sg d mode q resp
  unfolding lookup
  lookup-eq equal_fold unmarshal mode q env resp e f h = rw (e, f, h, lookup) refl

  -- what a written envelope is
  write_signed-sealed :
      (key : sg.PrivateKey) (contents : Option Bytes) (env : Envelope)
      → write_signed sg address_hex key contents ≡ sealed env
      → seal_envelope sg key contents ≡ some env
  unfolding write_signed
  write_signed-sealed key contents env h = elim (Option-cases (seal_envelope sg key contents)) [
    | inl e ↦ absurd (ground (arith, e))
    | inr (env', e) ↦ e ∙ ground (arith, e)
  ]

  handle_resolve-eq :
      (key : sg.PrivateKey) (u : Unicode) (marshal : ResolveResponse → Option Bytes)
      (answer : Query → Option QueryResult) (params : Params) (q : Query) (resp : ResolveResponse)
      → parse_resolve_query u params ≡ parsed q
      → resolve_response sg address_hex q (answer q) ≡ some resp
      → handle_resolve sg address_hex key u marshal answer params
        ≡ write_signed sg address_hex key (marshal resp)
  unfolding handle_resolve
  handle_resolve-eq key u marshal answer params q resp e f = rw (e, f, handle_resolve) refl

  -- A client whose normalised query a resolver answers from a genuine record on chain accepts the
  -- sealed answer, both without discovery and against the same chain with the resolver's key pinned:
  -- only the proof, where the answer has one, is left to decide. The JSON of the answer is assumed to
  -- be read back as it was written.
  pub lookup-handle_resolve :
      (key : sg.PrivateKey) (u : Unicode) (marshal : ResolveResponse → Option Bytes)
      (unmarshal : Bytes → Option ResolveResponse) (equal_fold : Bytes → Bytes → Bool)
      (answer : Query → Option QueryResult) (name rtype : Bytes) (ps : List Pair) (q : Query)
      (res : QueryResult) (mode : Mode) (env : Envelope)
      → UnicodeLaws u
      → ((text : Bytes)
          → marshal (match sg address_hex q res) ≡ some text
          → unmarshal text ≡ some (match sg address_hex q res))
      → Selector.new u name rtype ps ≡ Selector.ok q
      → answer q ≡ some res
      → IsGenuine c o g sg d address_hex q.name res
      → SameChain res mode
      → right_resolver c o g sg d equal_fold mode env.resolver ≡ true
      → handle_resolve sg address_hex key u marshal answer (sent q) ≡ sealed env
      → lookup c o g sg d equal_fold unmarshal mode q (some env)
        ≡ check_proof c o g sg d
            (match sg address_hex q res)
            (to_record_json sg address_hex res.result.entry)
  lookup-handle_resolve key u marshal unmarshal equal_fold answer name rtype ps q res mode env laws
        json made answered genuine same pinned written =
      let resp = match sg address_hex q res in
      let answers : resolve_response sg address_hex q (answer q) ≡ some resp =
        ap (resolve_response sg address_hex q) answered ∙ resolve_response-match q res genuine in
      let signed = write_signed-sealed key (marshal resp) env (
        sym (
          handle_resolve-eq key u marshal answer (sent q) q resp
            (parse_resolve_query-sent u laws name rtype ps q made) answers)
        ∙ written) in
      let (valid, contents) = verify_envelope-seal_envelope sg key (marshal resp) env signed in
      lookup-eq equal_fold unmarshal mode q env resp valid pinned (json env.contents contents)
      ∙ judge-match q res genuine mode same

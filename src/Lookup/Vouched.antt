-- ===== src/Lookup/Vouched.antt =====
-- What an answer that resolver/cmd/ddns-lookup/main.go accepts has passed.
use decentralized_dns.Base.{
  Bytes, [], Bool, true, Option, none, some, ◌≡◌, ◌≢◌, Option-cases, inl, inr, arith,
}
use decentralized_dns.Chain.Types.{Record, ResolveResult}
use decentralized_dns.Query.Selector.{Query}
use decentralized_dns.Pki.Owner.{Secp, SliceSort, verify_owner_sig}
use decentralized_dns.Pki.Resource.{Signing, Envelope, verify_envelope}
use decentralized_dns.Zk.Pack.{Gnark}
use decentralized_dns.Lookup.Agreement.{Agrees, diff_against_chain-Agrees}
use decentralized_dns.Lookup.Compare.{
  Decoding, RecordJson, Response, record_from_response, diff_against_chain,
}
use decentralized_dns.Lookup.Client.{
  exit_code, response_of, Mode, discovered, owner_sig_holds, zk_holds, cross_check, check_proof,
  judge, right_resolver, lookup,
}
use decentralized_dns.Server.Rest.{ResolveResponse}

module _ (c : Secp) (o : SliceSort) (g : Gnark) (sg : Signing) (d : Decoding) where
  -- a found answer that is vouched for by its owner, and by the chain where that was read
  pub record IsVouched (mode : Mode) (q : Query) (resp : ResolveResponse) : Type 0 where
    pub answer : RecordJson
    pub has_answer : resp.answer ≡ some answer
    pub body : Record
    pub is_body : record_from_response d (response_of resp answer) ≡ some body
    pub key : Bytes
    pub is_key : d.decode resp.pub_key ≡ some key
    pub is_signed : verify_owner_sig c o q.name body (d.hex_to_address resp.owner) key ≡ none
    pub agrees :
        (pinned : Bytes) (onchain : ResolveResult)
        → mode ≡ discovered pinned (some onchain)
        → Agrees d o onchain q.name (response_of resp answer)
    pub not_unread : (pinned : Bytes) → mode ≢ discovered pinned none
    pub is_proved : resp.zk_proof ≢ [] → zk_holds c o g sg d answer.commitment resp.zk_proof ≡ true

  owner_sig_holds-parts :
      (name : Bytes) (resp : Response)
      → owner_sig_holds c o g sg d name resp ≡ true
      → (body : Record) × (key : Bytes) × (record_from_response d resp ≡ some body)
        × (d.decode resp.pub_key ≡ some key)
        × (verify_owner_sig c o name body (d.hex_to_address resp.owner) key ≡ none)
  unfolding owner_sig_holds
  owner_sig_holds-parts name resp h = elim (Option-cases (d.decode resp.pub_key)) [
    | inl e ↦ absurd (ground (arith, e))
    | inr (key, e) ↦ elim (Option-cases (record_from_response d resp)) [
      | inl f ↦ absurd (ground (arith, e, f))
      | inr (body, f) ↦
          elim (Option-cases (verify_owner_sig c o name body (d.hex_to_address resp.owner) key)) [
            | inl k ↦ (body, key, f, e, k)
            | inr (x, k) ↦ absurd (ground (arith, e, f, k))
          ]
    ]
  ]

  cross_check-agrees :
      (mode : Mode) (name : Bytes) (resp : Response)
      → cross_check c o g sg d mode name (some resp) ≡ true
      → (pinned : Bytes) (onchain : ResolveResult) → mode ≡ discovered pinned (some onchain)
      → Agrees d o onchain name resp
  unfolding cross_check
  cross_check-agrees mode name resp h pinned onchain e =
      elim (Option-cases (diff_against_chain d o onchain name (some resp))) [
        | inl f ↦ (diff_against_chain-Agrees d o onchain name).1 resp f
        | inr (x, f) ↦ absurd (ground (arith, e, f))
      ]

  cross_check-read :
      (mode : Mode) (name : Bytes) (resp : Option Response)
      → cross_check c o g sg d mode name resp ≡ true
      → (pinned : Bytes) → mode ≢ discovered pinned none
  unfolding cross_check
  cross_check-read mode name resp h pinned e = ground arith

  check_proof-holds :
      (resp : ResolveResponse) (r : RecordJson)
      → exit_code (check_proof c o g sg d resp r) ≡ 0
      → resp.zk_proof ≢ []
      → zk_holds c o g sg d r.commitment resp.zk_proof ≡ true
  unfolding check_proof
  check_proof-holds resp r h ne = ground arith

  judge-IsVouched :
      (mode : Mode) (q : Query) (resp : ResolveResponse)
      → exit_code (judge c o g sg d mode q resp) ≡ 0
      → resp.found ≡ true
      → IsVouched mode q resp
  unfolding judge
  judge-IsVouched mode q resp h there = elim (Option-cases resp.answer) [
    | inl e ↦ absurd (ground (arith, e))
    | inr (r, e) ↦
        let signed : owner_sig_holds c o g sg d q.name (response_of resp r) ≡ true =
          ground (arith, e) in
        let crossed : cross_check c o g sg d mode q.name (some (response_of resp r)) ≡ true =
          ground (arith, e) in
        let proved : exit_code (check_proof c o g sg d resp r) ≡ 0 = ground (arith, e) in
        let (body, key, f, k, valid) = owner_sig_holds-parts q.name (response_of resp r) signed in
        record {
          answer = r;
          has_answer = e;
          body = body;
          is_body = f;
          key = key;
          is_key = k;
          is_signed = valid;
          agrees = cross_check-agrees mode q.name (response_of resp r) crossed;
          not_unread = cross_check-read mode q.name (some (response_of resp r)) crossed;
          is_proved = check_proof-holds resp r proved;
        }
  ]

  -- When the lookup client exits with success, the answer is an envelope whose signature verifies,
  -- and a found record in it has an owner signature that recovers to the owner that it names, agrees
  -- with the chain if the resolver was discovered, and has a proof that verifies if it has one.
  pub lookup-IsVouched :
      (equal_fold : Bytes → Bytes → Bool) (unmarshal : Bytes → Option ResolveResponse) (mode : Mode)
      (q : Query) (env : Envelope)
      → exit_code (lookup c o g sg d equal_fold unmarshal mode q (some env)) ≡ 0
      → (verify_envelope sg env ≡ none)
        × (right_resolver c o g sg d equal_fold mode env.resolver ≡ true)
        × (resp : ResolveResponse) × (unmarshal env.contents ≡ some resp)
        × (resp.found ≡ true → IsVouched mode q resp)
  unfolding lookup
  lookup-IsVouched equal_fold unmarshal mode q env h =
      elim (Option-cases (verify_envelope sg env)) [
        | inr (x, e) ↦ absurd (ground (arith, e))
        | inl e ↦ elim (Option-cases (unmarshal env.contents)) [
          | inl f ↦ absurd (ground (arith, e, f))
          | inr (resp, f) ↦
              let pinned : right_resolver c o g sg d equal_fold mode env.resolver ≡ true =
                ground (arith, e, f) in
              let judged : exit_code (judge c o g sg d mode q resp) ≡ 0 = ground (arith, e, f) in
              (e, pinned, resp, f, λ there. judge-IsVouched mode q resp judged there)
        ]
      ]

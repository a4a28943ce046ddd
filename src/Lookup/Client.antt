-- ===== src/Lookup/Client.antt =====
-- resolver/cmd/ddns-lookup/main.go: what the lookup client checks of a resolver's answer, in order.
use decentralized_dns.Base.{
  ℕ, Bytes, Bytes-discrete, List, [], ◌∷◌, ◌++◌, Bool, true, false, not, ◌==◌, Option, none, some,
  ite, if◌then◌else◌, codes, length,
}
use decentralized_dns.Base.Text.{itoa}
use decentralized_dns.Chain.Types.{ResolveResult}
use decentralized_dns.Query.Selector.{Query}
use decentralized_dns.Pki.Owner.{Secp, SliceSort, verify_owner_sig}
use decentralized_dns.Pki.Resource.{Signing, Envelope, verify_envelope}
use decentralized_dns.Zk.Pack.{Gnark}
use decentralized_dns.Zk.Calldata.{proof_from_calldata}
use decentralized_dns.Lookup.Compare.{
  Decoding, RecordJson, Response, record_from_response, diff_against_chain,
}
use decentralized_dns.Server.Rest.{ResolveResponse}

-- how the client exits: with an answer, or for the first reason that it finds
pub data Verdict : Type 0 where
  no_match_found verified verified_with_proof : Verdict
  not_an_envelope bad_envelope wrong_resolver bad_response owner_sig_invalid : Verdict
  mismatch zk_invalid nil_record : Verdict

-- the exit code, with 2 for the panic on a nil record
abbrev pub exit_code : Verdict → ℕ
exit_code no_match_found = 0
exit_code verified = 0
exit_code verified_with_proof = 0
exit_code nil_record = 2
exit_code _ = 1

-- The part of a response that the checks read, once the record is there.
abbrev pub response_of : ResolveResponse → RecordJson → Response
response_of resp r = record { body = r; owner = resp.owner; pub_key = resp.pub_key }

-- the discovery: the key that the registry advertised, and what compareOnChain reads; its inner
-- `none` is an error of the chain.
pub data Mode : Type 0 where
  direct : Mode
  discovered : Bytes → Option ResolveResult → Mode

module _ (c : Secp) (o : SliceSort) (g : Gnark) (sg : Signing) (d : Decoding) where
  -- verifyOwnerSig; `false` is an error.
  unfoldable pub owner_sig_holds : Bytes → Response → Bool
  owner_sig_holds name resp = elim (d.decode resp.pub_key) [
    | none ↦ false
    | some key ↦ elim (record_from_response d resp) [
      | none ↦ false
      | some rec ↦ elim (verify_owner_sig c o name rec (d.hex_to_address resp.owner) key) [
        | none ↦ true
        | some e ↦ false
      ]
    ]
  ]

  -- verifyZK; `false` is an error.
  unfoldable pub zk_holds : Bytes → Bytes → Bool
  zk_holds commitment_hex proof_hex = elim (d.decode commitment_hex) [
    | none ↦ false
    | some commitment ↦ if not (length commitment == 32) then false else elim (d.decode proof_hex) [
      | none ↦ false
      | some calldata ↦ elim (proof_from_calldata g calldata) [
        | none ↦ false
        | some proof ↦ g.verify proof commitment
      ]
    ]
  ]

  -- crossCheck; `false` is an exit.
  unfoldable pub cross_check : Mode → Bytes → Option Response → Bool
  cross_check direct name resp = true
  cross_check (discovered key none) name resp = false
  cross_check (discovered key (some onchain)) name resp =
      elim (diff_against_chain d o onchain name resp) [ none ↦ true | some e ↦ false ]

  -- the end of main, on the proof
  unfoldable pub check_proof : ResolveResponse → RecordJson → Verdict
  check_proof resp r =
      ite (Bytes-discrete resp.zk_proof []) verified
        (if zk_holds r.commitment resp.zk_proof then verified_with_proof else zk_invalid)

  -- main from the decoded response on; a found response without a record is dereferenced.
  unfoldable pub judge : Mode → Query → ResolveResponse → Verdict
  judge mode q resp =
      if not resp.found
      then if cross_check mode q.name none then no_match_found else mismatch
      else elim resp.answer [
        | none ↦ nil_record
        | some r ↦
            if not (owner_sig_holds q.name (response_of resp r))
            then owner_sig_invalid
            else if not (cross_check mode q.name (some (response_of resp r)))
            then mismatch
            else check_proof resp r
      ]

  -- the pinned key, compared by strings.EqualFold
  unfoldable pub right_resolver : (Bytes → Bytes → Bool) → Mode → Bytes → Bool
  right_resolver equal_fold direct resolver = true
  right_resolver equal_fold (discovered key chain) resolver =
      if ite (Bytes-discrete key []) true false then true else equal_fold resolver key

  -- main on the answer: the envelope that it holds, if it is one, and the response in an envelope.
  unfoldable pub lookup :
      (Bytes → Bytes → Bool)
      → (Bytes → Option ResolveResponse)
      → Mode
      → Query
      → Option Envelope
      → Verdict
  lookup equal_fold unmarshal mode q none = not_an_envelope
  lookup equal_fold unmarshal mode q (some env) = elim (verify_envelope sg env) [
    | some e ↦ bad_envelope
    | none ↦
        if not (right_resolver equal_fold mode env.resolver)
        then wrong_resolver
        else elim (unmarshal env.contents) [ none ↦ bad_response | some resp ↦ judge mode q resp ]
  ]

-- formatRecord: a name without a value is written with an empty one.
unfoldable pub format_fields : List Bytes → List Bytes → Bytes
format_fields [] values = []
format_fields (n ∷ names) [] = codes " " ++ (n ++ (codes "=" ++ format_fields names []))
format_fields (n ∷ names) (v ∷ values) =
    codes " " ++ (n ++ (codes "=" ++ (v ++ format_fields names values)))

unfoldable pub format_record : RecordJson → Bytes
unfolding format_fields itoa
format_record r =
    r.rtype
    ++ (ite (Bytes-discrete r.selector []) [] (codes " [" ++ (r.selector ++ codes "]"))
        ++ (format_fields r.field_names r.field_values
            ++ (codes " (ttl=" ++ (itoa r.ttl ++ codes "s)"))))

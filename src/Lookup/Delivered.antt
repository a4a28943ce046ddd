-- ===== src/Lookup/Delivered.antt =====
-- A record from resolver/cmd/ddns over the chain and resolver/internal/server to
-- resolver/cmd/ddns-lookup.
use decentralized_dns.Base.{
  ℕ, Bytes, Bytes-discrete, List, [], Bool, true, false, Option, none, some, ite, length, replicate,
  ◌≡◌, ◌≢◌, ◌⊎◌, refl, sym, ap, ◌∙◌, subst, if_pos, if_neg, Option-cases, inl, inr, arith,
}
use decentralized_dns.Base.Text.{Unicode}
use decentralized_dns.Base.TextLaws.{UnicodeLaws}
use decentralized_dns.Cache.Lru.{Lru}
use decentralized_dns.Cache.State
use decentralized_dns.Cache.State.{Entry, TtlCache}
use decentralized_dns.Chain.Types.{Record, ResolveResult}
use decentralized_dns.Query.Selector
use decentralized_dns.Query.Selector.{Query, Pair}
use decentralized_dns.Pki.Owner.{Secp, SliceSort, is_placeholder_pub_key, verify_owner_sig}
use decentralized_dns.Pki.Resource.{Signing, Envelope}
use decentralized_dns.Zk.Pack.{Gnark}
use decentralized_dns.Zk.Calldata.{Layout, proof_from_calldata-marshal_solidity}
use decentralized_dns.Cli.Anchored.{on_chain, IsAnchored}
use decentralized_dns.Cli.Script.{Tx, Network}
use decentralized_dns.Lookup.Answered.{SameChain, lookup-handle_resolve}
use decentralized_dns.Lookup.Client.{Mode, exit_code, zk_holds, check_proof, right_resolver, lookup}
use decentralized_dns.Lookup.Compare.{Decoding, RecordJson}
use decentralized_dns.Lookup.Honest.{sent, Texts, IsGenuine}
use decentralized_dns.Server.Attached.{
  IsComplete, IsAttached, nothing, proof, prove_record-IsAttached,
}
use decentralized_dns.Server.Handle.{
  to_result, QueryResult, found, key_of, checked, fill, handle_query,
}
use decentralized_dns.Server.ReadThrough.{handle_query_miss}
use decentralized_dns.Server.Rest.{ResolveResponse, sealed, to_record_json, match, handle_resolve}

module _ (c : Secp) (o : SliceSort) (g : Gnark) (complete : IsComplete g) (layout : Layout g)
    (sg : Signing) (d : Decoding) (address_hex : Bytes → Bytes)
    (texts : Texts c o g sg d address_hex) where
  zk_holds-attached :
      (hash : Bytes) (p : g.Proof)
      → length hash ≡ 32
      → g.verify p hash ≡ true
      → zk_holds c o g sg d (sg.hex_encode hash) (sg.hex_encode (g.marshal_solidity p)) ≡ true
  unfolding zk_holds
  zk_holds-attached hash p size valid = ground (
    arith,
    texts.decode-hex_encode hash,
    texts.decode-hex_encode (g.marshal_solidity p),
    proof_from_calldata-marshal_solidity g layout p,
  )

  abbrev proof_text : Bytes → Bytes
  proof_text z = ite (Bytes-discrete z []) [] (sg.hex_encode z)

  proof_text-attached :
      (hash z : Bytes)
      → length hash ≡ 32
      → IsAttached c o g complete hash z
      → (proof_text z ≡ []) ⊎ (zk_holds c o g sg d (sg.hex_encode hash) (proof_text z) ≡ true)
  proof_text-attached hash _ size nothing = inl (if_pos (Bytes-discrete [] []) refl _ _)
  proof_text-attached hash _ size (proof p valid) =
      elim (Bytes-discrete (g.marshal_solidity p) []) [
        | yes e ↦ inl (if_pos (Bytes-discrete (g.marshal_solidity p) []) e _ _)
        | no ne ↦ inr (
            ap (zk_holds c o g sg d (sg.hex_encode hash))
              (if_neg (Bytes-discrete (g.marshal_solidity p) []) ne _ _)
            ∙ zk_holds-attached hash p size valid)
      ]

  check_proof-holds :
      (resp : ResolveResponse) (r : RecordJson)
      → (resp.zk_proof ≡ []) ⊎ (zk_holds c o g sg d r.commitment resp.zk_proof ≡ true)
      → exit_code (check_proof c o g sg d resp r) ≡ 0
  unfolding check_proof
  check_proof-holds resp r (inl e) = ground (arith, e)
  check_proof-holds resp r (inr h) = ground (arith, h)

  check_proof-attached :
      (q : Query) (res : QueryResult)
      → length res.result.entry.commitment ≡ 32
      → IsAttached c o g complete res.result.entry.commitment res.result.zk_proof
      → exit_code (
          check_proof c o g sg d
            (match sg address_hex q res)
            (to_record_json sg address_hex res.result.entry))
        ≡ 0
  unfolding to_record_json
  check_proof-attached q res size h =
      check_proof-holds (match sg address_hex q res)
        (to_record_json sg address_hex res.result.entry)
        (proof_text-attached res.result.entry.commitment res.result.zk_proof size h)

  checked-signed :
      (name : Bytes) (rec : Record) (owner pub_key : Bytes)
      → (checked c o g name (to_result (rec, owner, pub_key))).owner_sig_valid ≡ true
      → verify_owner_sig c o name rec owner pub_key ≡ none
  unfolding checked
  checked-signed name rec owner pub_key h =
      elim (Option-cases (verify_owner_sig c o name rec owner pub_key)) [
        | inl e ↦ e
        | inr (x, e) ↦ absurd (ground (arith, e))
      ]

  -- what a miss answers for a record that is there
  abbrev pub answer_of : Bytes → Record → Bytes → Bytes → QueryResult
  answer_of name rec owner pub_key = record {
    result = checked c o g name (to_result (rec, owner, pub_key));
    cached = false;
  }

  found-address :
      (name : Bytes) (rec : Record) (owner pub_key : Bytes)
      → rec.is_there ≡ true
      → owner ≢ replicate 20 0
      → found (answer_of name rec owner pub_key) ≡ true
  unfolding found checked
  found-address name rec owner pub_key there ne = ground arith

  checked-IsGenuine :
      (name : Bytes) (rec : Record) (owner pub_key : Bytes)
      → rec.is_there ≡ true
      → length owner ≡ 20
      → owner ≢ replicate 20 0
      → length rec.commitment ≡ 32
      → (checked c o g name (to_result (rec, owner, pub_key))).owner_sig_valid ≡ true
      → IsGenuine c o g sg d address_hex name (answer_of name rec owner pub_key)
  unfolding checked
  checked-IsGenuine name rec owner pub_key there size ne long valid = record {
    is_found = found-address name rec owner pub_key there ne;
    is_there = there;
    owner_length = size;
    commitment_length = long;
    is_signed = checked-signed name rec owner pub_key valid;
  }

  new-name :
      (u : Unicode) (name rtype : Bytes) (ps : List Pair) (q : Query)
      → Selector.new u name rtype ps ≡ Selector.ok q
      → q.name ≡ name
  unfolding Selector.new
  new-name u name rtype ps q h = ground arith

  handle_query-there :
      (name_hash : Bytes → Bytes) (L : Lru (Entry ResolveResult)) (s : TtlCache name_hash L)
      (at now : ℕ) (q : Query) (rec : Record) (owner pub_key : Bytes)
      → rec.is_there ≡ true
      → (State.get name_hash L s at (key_of q)).1 ≡ none
      → (handle_query c o g name_hash L s at now q (some (rec, owner, pub_key))).1
        ≡ some (answer_of q.name rec owner pub_key)
  unfolding fill
  handle_query-there name_hash L s at now q rec owner pub_key there miss =
      ap (λ (x : TtlCache name_hash L × Option QueryResult). x.1)
        (handle_query_miss c o g name_hash L s at now q (some (rec, owner, pub_key)) miss)
      ∙ rw (there, fill) refl

  module _ (net : Network) (txs : List Tx) (a : IsAnchored c o g net txs) where
    abbrev signer : Bytes
    signer = c.pubkey_to_address (c.public_key a.key)

    abbrev anchored : Record
    anchored = on_chain a.rec a.sig a.hash

    -- What `ddns set` anchored, a resolver that reads it from the chain on a miss and serves it over
    -- REST delivers to the lookup client, which exits with success: the envelope, the owner
    -- signature, the comparison with the chain and the proof, if one is attached, all pass. This is
    -- for a registered or placeholder key on chain, an address and a commitment of their sizes, a
    -- name and type that the query is made of, a sealed answer, its JSON read back as it was written,
    -- a complete prover, and a client that asks the resolver directly, or under its pinned key with
    -- the same record on the chain that it reads.
    pub lookup-IsAnchored :
        (pub_key : Bytes)
        → (is_placeholder_pub_key pub_key ≡ true)
          ⊎ (c.from_ecdsa_pub (c.public_key a.key) ≡ pub_key)
        → length signer ≡ 20
        → signer ≢ replicate 20 0
        → length a.hash ≡ 32
        → (name_hash : Bytes → Bytes) (L : Lru (Entry ResolveResult)) (s : TtlCache name_hash L)
          (at now : ℕ) (key : sg.PrivateKey) (u : Unicode)
          (marshal : ResolveResponse → Option Bytes) (unmarshal : Bytes → Option ResolveResponse)
          (equal_fold : Bytes → Bytes → Bool) (ps : List Pair) (q : Query) (mode : Mode)
          (env : Envelope)
        → UnicodeLaws u
        → ((text : Bytes)
            → marshal (match sg address_hex q (answer_of q.name anchored signer pub_key))
              ≡ some text
            → unmarshal text
              ≡ some (match sg address_hex q (answer_of q.name anchored signer pub_key)))
        → Selector.new u a.name a.rec.rtype ps ≡ Selector.ok q
        → (State.get name_hash L s at (key_of q)).1 ≡ none
        → SameChain (answer_of q.name anchored signer pub_key) mode
        → right_resolver c o g sg d equal_fold mode env.resolver ≡ true
        → handle_resolve sg address_hex key u marshal
            (λ asked.
              (handle_query c o g name_hash L s at now asked (some (anchored, signer, pub_key))).1)
            (sent q)
          ≡ sealed env
        → exit_code (lookup c o g sg d equal_fold unmarshal mode q (some env)) ≡ 0
    unfolding checked
    lookup-IsAnchored pub_key known size ne long name_hash L s at now key u marshal unmarshal
          equal_fold ps q mode env laws json made miss same pinned written =
        let res = answer_of q.name anchored signer pub_key in
        let valid =
          subst
            (λ n. (checked c o g n (to_result (anchored, signer, pub_key))).owner_sig_valid ≡ true)
            (sym (new-name u a.name a.rec.rtype ps q made)) (a.is_verified pub_key known) in
        let genuine = checked-IsGenuine q.name anchored signer pub_key refl size ne long valid in
        ap exit_code (
          lookup-handle_resolve c o g sg d address_hex texts key u marshal unmarshal equal_fold
            (λ asked.
              (handle_query c o g name_hash L s at now asked (some (anchored, signer, pub_key))).1)
            a.name a.rec.rtype ps q res mode env laws json made
            (handle_query-there name_hash L s at now q anchored signer pub_key refl miss) genuine
            same pinned written)
        ∙ check_proof-attached q res long (prove_record-IsAttached c o g complete q.name anchored)

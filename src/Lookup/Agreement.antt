-- ===== src/Lookup/Agreement.antt =====
-- diffAgainstChain of resolver/cmd/ddns-lookup/main.go, against the fields that it compares.

use decentralized_dns.Base.{Bytes, true, false, Option, none, some, ◌≡◌, refl, sym, ap, ◌∙◌, arith}
use decentralized_dns.Chain.Types.{Record, ResolveResult}
use decentralized_dns.Pki.Owner.{SliceSort, record_message}
use decentralized_dns.Lookup.Compare.{
  Decoding, Response, record_from_response, compare_messages, compare_record, diff_against_chain,
}

-- A response that agrees with the chain.
pub record Agrees (d : Decoding) (o : SliceSort) (onchain : ResolveResult) (name : Bytes)
    (resp : Response) : Type 0 where
  pub exists_on_chain : onchain.entry.is_there ≡ true
  pub body : Record
  pub is_body : record_from_response d resp ≡ some body
  pub same_owner : onchain.owner ≡ d.hex_to_address resp.owner
  pub same_key : d.decode resp.pub_key ≡ some onchain.pub_key
  pub same_commitment : onchain.entry.commitment ≡ body.commitment
  pub same_sig : onchain.entry.owner_sig ≡ body.owner_sig
  pub same_message : record_message o name onchain.entry ≡ record_message o name body

compare_messages-none : (a b : Option Bytes) → compare_messages a b ≡ none → a ≡ b
unfolding compare_messages
compare_messages-none (some m) (some n) h = ground arith
compare_messages-none none (some n) h = cc
compare_messages-none none none h = cc
compare_messages-none (some m) none h = cc

compare_record-Agrees :
    (d : Decoding) (o : SliceSort) (onchain : ResolveResult) (name : Bytes) (resp : Response)
    (rec : Option Record) (key : Option Bytes)
    → onchain.entry.is_there ≡ true
    → record_from_response d resp ≡ rec
    → d.decode resp.pub_key ≡ key
    → compare_record d o onchain name resp rec key ≡ none
    → Agrees d o onchain name resp
unfolding compare_record
compare_record-Agrees d o onchain name resp none key there e f h = cc
compare_record-Agrees d o onchain name resp (some rec) none there e f h = absurd (ground arith)
compare_record-Agrees d o onchain name resp (some rec) (some key) there e f h =
    let key_same : onchain.pub_key ≡ key = ground arith in
    record {
      exists_on_chain = there;
      body = rec;
      is_body = e;
      same_owner = ground arith;
      same_key = f ∙ ap some (sym key_same);
      same_commitment = ground arith;
      same_sig = ground arith;
      same_message =
          compare_messages-none (record_message o name onchain.entry) (record_message o name rec)
            (ground arith);
    }

-- A positive answer without a mismatch agrees with the chain in owner, key, commitment, signature and
-- signed message; a negative one means that the chain has no record either.
pub diff_against_chain-Agrees :
    (d : Decoding) (o : SliceSort) (onchain : ResolveResult) (name : Bytes)
    → (diff_against_chain d o onchain name none ≡ none → onchain.entry.is_there ≡ false)
      × ((resp : Response)
          → diff_against_chain d o onchain name (some resp) ≡ none
          → Agrees d o onchain name resp)
unfolding diff_against_chain
diff_against_chain-Agrees d o onchain name = (
  λ h. ground arith,
  λ resp h.
      compare_record-Agrees d o onchain name resp (record_from_response d resp)
        (d.decode resp.pub_key) (ground arith) refl refl (ground arith),
)

-- ===== src/Lookup/Compare.antt =====
-- recordFromResponse and diffAgainstChain of resolver/cmd/ddns-lookup/main.go.
use decentralized_dns.Base.{
  ℕ, Bytes, Bytes-discrete, List, [], false, not, ◌==◌, Option, none, some, ite, if◌then◌else◌,
  length, replicate,
}
use decentralized_dns.Chain.Types.{Record, ResolveResult}
use decentralized_dns.Pki.Owner.{SliceSort, record_message}

-- hexutil.Decode and common.HexToAddress
pub record Decoding : Type 0 where
  pub decode : Bytes → Option Bytes
  pub hex_to_address : Bytes → Bytes

-- recordJSON
pub record RecordJson : Type 0 where
  pub rtype : Bytes
  pub selector : Bytes
  pub field_names : List Bytes
  pub field_values : List Bytes
  pub ttl : ℕ
  pub generation : ℕ
  pub owner_sig : Bytes
  pub commitment : Bytes

-- a resolver's answer that carries a record
pub record Response : Type 0 where
  pub body : RecordJson
  pub owner : Bytes
  pub pub_key : Bytes

-- the reasons of diffAgainstChain; `index_panic` stands for a panic of RecordMessage
pub data Mismatch : Type 0 where
  withheld not_on_chain bad_encoding owner_mismatch pub_key_mismatch : Mismatch
  commitment_mismatch owner_sig_mismatch body_mismatch index_panic : Mismatch

-- the commitment of a response, which is zero when the text is empty
unfoldable pub commitment_of : Decoding → Bytes → Option Bytes
commitment_of d text =
    ite (Bytes-discrete text []) (some (replicate 32 0))
      (elim (d.decode text) [ none ↦ none | some cb ↦ if length cb == 32 then some cb else none ])

abbrev pub rebuilt : RecordJson → Bytes → Bytes → Record
rebuilt r sig hash = record {
  rtype = r.rtype;
  selector = r.selector;
  field_names = r.field_names;
  field_vals = r.field_values;
  ttl = r.ttl;
  generation = r.generation;
  owner_sig = sig;
  commitment = hash;
  is_there = false;
}

unfoldable pub record_from_response : Decoding → Response → Option Record
unfolding commitment_of
record_from_response d resp = elim (d.decode resp.body.owner_sig) [
  | none ↦ none
  | some sig ↦ elim (commitment_of d resp.body.commitment) [
    | none ↦ none
    | some hash ↦ some (rebuilt resp.body sig hash)
  ]
]

-- the comparison of the two messages
unfoldable pub compare_messages : Option Bytes → Option Bytes → Option Mismatch
compare_messages (some m) (some n) = ite (Bytes-discrete m n) none (some body_mismatch)
compare_messages none n = some index_panic
compare_messages (some m) none = some index_panic

-- the comparison with the rebuilt record and the decoded key; `none` is a nil error.
unfoldable pub compare_record :
    Decoding
    → SliceSort
    → ResolveResult
    → Bytes
    → Response
    → Option Record
    → Option Bytes
    → Option Mismatch
unfolding compare_messages
compare_record d o onchain name resp none key = some bad_encoding
compare_record d o onchain name resp (some rec) none =
    ite (Bytes-discrete onchain.owner (d.hex_to_address resp.owner)) (some bad_encoding)
      (some owner_mismatch)
compare_record d o onchain name resp (some rec) (some key) =
    ite (Bytes-discrete onchain.owner (d.hex_to_address resp.owner))
      (ite (Bytes-discrete onchain.pub_key key)
        (ite (Bytes-discrete onchain.entry.commitment rec.commitment)
          (ite (Bytes-discrete onchain.entry.owner_sig rec.owner_sig)
            (compare_messages (record_message o name onchain.entry) (record_message o name rec))
            (some owner_sig_mismatch))
          (some commitment_mismatch))
        (some pub_key_mismatch))
      (some owner_mismatch)

-- diffAgainstChain; a response of `none` is one with found = false.
unfoldable pub diff_against_chain :
    Decoding → SliceSort → ResolveResult → Bytes → Option Response → Option Mismatch
unfolding compare_record record_from_response
diff_against_chain d o onchain name none = if onchain.entry.is_there then some withheld else none
diff_against_chain d o onchain name (some resp) =
    if not onchain.entry.is_there
    then some not_on_chain
    else compare_record d o onchain name resp (record_from_response d resp) (d.decode resp.pub_key)

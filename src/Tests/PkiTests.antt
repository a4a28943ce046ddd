-- ===== src/Tests/PkiTests.antt =====
-- resolver/internal/pki, resolver/internal/zk and the comparison of resolver/cmd/ddns-lookup at concrete
-- inputs.
use mathlib.Core.List.{Permᴰ}
use mathlib.Core.List.Permᴰ.{swap}
use decentralized_dns.Base.{
  ℕ, Bytes, Bytes-discrete, List, [], ◌∷◌, codes, ◌≡◌, inl, refl, replicate, true, false, none,
  some, arith,
}
use decentralized_dns.Chain.Types.{Record, ResolveResult, with_fields, with_sig}
use decentralized_dns.Lookup.Compare.{Decoding, Response, diff_against_chain}
use decentralized_dns.Lookup.Agreement.{Agrees, diff_against_chain-Agrees}
use decentralized_dns.Pki.Manifest.{FitsManifest, resource_manifest_inj}
use decentralized_dns.Pki.Message.{
  FitsMessage, SameContent, record_message_inj, record_message-perm,
}
use decentralized_dns.Pki.Owner.{
  field_pairs, record_message, is_placeholder_pub_key, verify_owner_sig, sign_record, at_v, raise_v,
}
use decentralized_dns.Pki.Resource.{Provenance, resource_manifest, Envelope}
use decentralized_dns.Pki.Verify.{Accepted, verify_owner_sig-Accepted, verify_owner_sig-sign_record}
use decentralized_dns.Query.Selector.{Pair, has_key}
use decentralized_dns.Query.Order.{fresh_keys}
use decentralized_dns.Zk.Binding.{pack_message_inj}
use decentralized_dns.Zk.Pack.{pack_message}
use decentralized_dns.Tests.Instances.{sorter, secp, signing, raw_sig, owner_address}

abbrev names : List Bytes
names = codes "b" ∷ codes "a" ∷ []

abbrev vals : List Bytes
vals = codes "2" ∷ codes "1" ∷ []

abbrev pairs : List Pair
pairs = (codes "b", codes "2") ∷ (codes "a", codes "1") ∷ []

abbrev entry : Record
entry = record {
  rtype = codes "A";
  selector = [];
  field_names = names;
  field_vals = vals;
  ttl = 60;
  generation = 1;
  owner_sig = at_v raise_v raw_sig;
  commitment = replicate 32 0;
  is_there = true;
}

abbrev site : Bytes
site = codes "alice"

paired : field_pairs names vals ≡ some pairs
unfolding field_pairs
paired = refl

entry_fits : FitsMessage site entry pairs
entry_fits = record {
  name_fits = omega arith;
  type_fits = omega arith;
  selector_fits = omega arith;
  ttl_fits = omega arith;
  generation_fits = omega arith;
  count_fits = omega arith;
  fields_fit = (omega arith, omega arith, (omega arith, omega arith, tt));
}

record_message_inj_example : SameContent site site entry entry × Permᴰ pairs pairs
record_message_inj_example =
    record_message_inj sorter site site entry entry pairs pairs paired paired entry_fits entry_fits
      refl

abbrev turned : List Pair
turned = (codes "a", codes "1") ∷ (codes "b", codes "2") ∷ []

new_keys : fresh_keys [] pairs ≡ true
unfolding has_key Bytes-discrete
new_keys = refl

record_message-perm_example :
    record_message sorter site entry
    ≡ record_message sorter site
        (with_fields entry (codes "a" ∷ codes "b" ∷ []) (codes "1" ∷ codes "2" ∷ []))
record_message-perm_example =
    record_message-perm sorter site entry (codes "a" ∷ codes "b" ∷ []) (codes "1" ∷ codes "2" ∷ [])
      pairs turned paired (unfold field_pairs in refl) (swap refl refl) new_keys

accepted : verify_owner_sig secp sorter site entry owner_address [] ≡ none
unfolding verify_owner_sig field_pairs Bytes-discrete
accepted = refl

verify_owner_sig-Accepted_example : Accepted secp sorter site entry owner_address []
verify_owner_sig-Accepted_example =
    verify_owner_sig-Accepted secp sorter site entry owner_address [] accepted

made : sign_record secp sorter site entry tt ≡ some (at_v raise_v raw_sig)
unfolding sign_record field_pairs
made = refl

verify_owner_sig-sign_record_example :
    verify_owner_sig secp sorter site (with_sig entry (at_v raise_v raw_sig)) owner_address []
    ≡ none
verify_owner_sig-sign_record_example =
    verify_owner_sig-sign_record secp sorter site entry tt (at_v raise_v raw_sig) [] refl made
      (inl (unfold is_placeholder_pub_key in refl))

abbrev provenance : Provenance
provenance = record {
  owner = codes "0x01";
  pub_key_hex = codes "0x02";
  info_hash = codes "03";
  sha256_hex = codes "04";
  content_type = codes "text/html";
  owner_sig_verified = true;
  zk_proof_hex = [];
}

provenance_fits : FitsManifest provenance
provenance_fits = record {
  owner_fits = omega arith;
  pub_key_hex_fits = omega arith;
  info_hash_fits = omega arith;
  sha256_hex_fits = omega arith;
  content_type_fits = omega arith;
  zk_proof_hex_fits = omega arith;
}

resource_manifest_inj_example :
    (provenance ≡ provenance) × (signing.sha256 (codes "a") ≡ signing.sha256 (codes "b"))
resource_manifest_inj_example =
    resource_manifest_inj signing provenance provenance (codes "a") (codes "b") provenance_fits
      provenance_fits (unfold resource_manifest in refl)

abbrev sealed : Envelope
sealed = record { contents = codes "[]"; resolver = replicate 32 1; signature = replicate 64 2 }

abbrev packed : List ℕ
packed = 2 ∷ 24930 ∷ replicate 15 0

pack_message_inj_example : codes "ab" ≡ codes "ab"
pack_message_inj_example =
    pack_message_inj (codes "ab") (codes "ab") packed (omega arith, (omega arith, tt))
      (omega arith, (omega arith, tt)) (unfold pack_message in refl) (unfold pack_message in refl)

abbrev decoding : Decoding
decoding = record { decode = λ s. some s; hex_to_address = λ s. s }

abbrev on_chain : ResolveResult
on_chain = record {
  entry = entry;
  owner = owner_address;
  pub_key = [];
  owner_sig_valid = false;
  zk_proof = [];
}

diff_against_chain-Agrees_example :
    (diff_against_chain decoding sorter on_chain site none ≡ none → true ≡ false)
    × ((resp : Response)
        → diff_against_chain decoding sorter on_chain site (some resp) ≡ none
        → Agrees decoding sorter on_chain site resp)
diff_against_chain-Agrees_example = diff_against_chain-Agrees decoding sorter on_chain site

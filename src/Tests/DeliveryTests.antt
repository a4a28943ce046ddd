-- ===== src/Tests/DeliveryTests.antt =====
-- One record from `ddns set` to `ddns-lookup`.
use decentralized_dns.Base.{
  Bytes, Bytes-discrete, [], ◌∷◌, true, false, none, some, codes, replicate, ◌≡◌, ◌≢◌, refl, ◌∙◌,
  inl,
}
use decentralized_dns.Base.Text.{trim_space}
use decentralized_dns.Cache.State
use decentralized_dns.Chain.Types.{Record}
use decentralized_dns.Pki.Owner.{
  is_placeholder_pub_key, at_v, raise_v, field_pairs, sign_record, record_message, write_message,
}
use decentralized_dns.Pki.Verify.{verify_owner_sig-sign_record}
use decentralized_dns.Pki.Resource.{seal_envelope}
use decentralized_dns.Query.Grammar.{name_ok, type_ok}
use decentralized_dns.Query.Selector
use decentralized_dns.Query.Selector.{Query, canonical_selector}
use decentralized_dns.Zk.Pack.{Gnark, commitment}
use decentralized_dns.Zk.Calldata.{Layout}
use decentralized_dns.Cli.Anchored.{
  on_chain, IsAnchored, owner_sig_valid-checked, verify_owner_sig-on_chain,
}
use decentralized_dns.Lookup.Answered.{asked}
use decentralized_dns.Lookup.Client.{direct, exit_code, lookup, right_resolver}
use decentralized_dns.Lookup.Delivered.{lookup-IsAnchored}
use decentralized_dns.Lookup.Honest.{Texts, sent}
use decentralized_dns.Server.Attached.{IsComplete}
use decentralized_dns.Server.Handle.{QueryResult, to_result, found, key_of, checked, handle_query}
use decentralized_dns.Server.Rest.{
  match, sealed, handle_resolve, parse_resolve_query, add_params, resolve_response, write_signed,
}
use decentralized_dns.Tests.Instances.{plain, plain_laws, secp, sorter, raw_sig, owner_address}
use decentralized_dns.Tests.OneSlot.{one_slot}
use decentralized_dns.Tests.CliTests.{domain, node, set_txs}
use decentralized_dns.Tests.LookupTests.{prefixed, decoding, same_text, envelope}
use decentralized_dns.Tests.ServerTests.{hash, empty}

-- a prover with one proof, of eight equal coordinates
abbrev prover : Gnark
prover = record {
  Proof = Unit {0};
  mimc = λ l. some (replicate 32 3);
  prove = λ l h. some tt;
  marshal_solidity = λ p. replicate 256 0;
  Element = Unit {0};
  set_bytes_canonical = λ b. some tt;
  assemble = λ a b c d e f g h. tt;
  verify = λ p h. true;
}

abbrev layout : Layout prover
layout = record {
  bytes = λ e. replicate 32 0;
  length-bytes = λ e. refl;
  set_bytes = λ e. refl;
  coordinates = λ p. (tt, tt, tt, tt, tt, tt, tt, tt, refl, refl);
}

complete : IsComplete prover
complete elements h p made proved = refl

texts : Texts secp sorter prover prefixed decoding same_text
texts = record {
  decode-hex_encode = λ m. refl;
  hex_encode-ne-nil = λ m e. cc;
  hex_to_address-address_hex = λ a h. refl;
}

abbrev site : Record
site = record {
  rtype = codes "A";
  selector = [];
  field_names = codes "ip" ∷ [];
  field_vals = codes "1.2.3.4" ∷ [];
  ttl = 3600;
  generation = 7;
  owner_sig = [];
  commitment = replicate 32 0;
  is_there = false;
}

abbrev word : Bytes
word = replicate 32 3

signed : sign_record secp sorter (codes "alice") site tt ≡ some (at_v raise_v raw_sig)
unfolding sign_record field_pairs write_message
signed = refl

provable :
    (m : Bytes) × (record_message sorter (codes "alice") site ≡ some m)
    × (commitment prover m ≡ some word)
unfolding record_message commitment field_pairs write_message Selector.sort_pairs
provable = (_, refl, refl)

-- the transaction of the run of `ddns set`
abbrev set_anchored : IsAnchored secp sorter prover node set_txs
set_anchored = record {
  key = tt;
  name = codes "alice";
  rec = site;
  sig = at_v raise_v raw_sig;
  hash = word;
  domain = domain;
  is_set = refl;
  is_domain = refl;
  is_current = refl;
  is_verified = λ pub_key k.
      owner_sig_valid-checked secp sorter prover (codes "alice")
        (on_chain site (at_v raise_v raw_sig) word) owner_address pub_key
        (verify_owner_sig-on_chain secp sorter prover (codes "alice") site (at_v raise_v raw_sig)
            word owner_address pub_key
          ∙ verify_owner_sig-sign_record secp sorter (codes "alice") site tt (at_v raise_v raw_sig)
              pub_key refl signed k);
  is_provable = provable;
}

no_key : is_placeholder_pub_key [] ≡ true
unfolding is_placeholder_pub_key
no_key = refl

some_owner : owner_address ≢ replicate 20 0
some_owner e = cc

abbrev question : Query
question = record { name = codes "alice"; rtype = codes "A"; selector = [] }

made : Selector.new plain (codes "alice") (codes "A") [] ≡ Selector.ok question
unfolding Selector.new name_ok type_ok canonical_selector
made = refl

miss : (State.get hash one_slot empty 0 (key_of question)).1 ≡ none
unfolding State.get
miss = refl

abbrev served : QueryResult
served = record {
  result =
      checked secp sorter prover (codes "alice")
        (to_result (on_chain site (at_v raise_v raw_sig) word, owner_address, []));
  cached = false;
}

written :
    handle_resolve prefixed same_text tt plain
      (λ r. some (codes "{}"))
      (λ q.
        (handle_query secp sorter prover hash one_slot empty 0 1 q
          (some (on_chain site (at_v raise_v raw_sig) word, owner_address, []))).1)
      (sent question)
    ≡ sealed envelope
unfolding handle_resolve parse_resolve_query add_params resolve_response write_signed Bytes-discrete
    Selector.parse_pairs trim_space Selector.new name_ok type_ok canonical_selector seal_envelope
    handle_query found State.get
written = refl

lookup-IsAnchored_example :
    exit_code (
      lookup secp sorter prover prefixed decoding
        (λ a b. true)
        (λ text. some (match prefixed same_text question served))
        direct
        question
        (some envelope))
    ≡ 0
lookup-IsAnchored_example =
    lookup-IsAnchored secp sorter prover complete layout prefixed decoding same_text texts node
      set_txs set_anchored [] (inl no_key) refl some_owner refl hash one_slot empty 0 1 tt plain
      (λ r. some (codes "{}")) (λ text. some (match prefixed same_text question served))
      (λ a b. true) [] question direct envelope plain_laws (λ text h. refl) made miss asked
      (unfold right_resolver in refl) written

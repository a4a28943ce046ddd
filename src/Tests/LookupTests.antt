-- ===== src/Tests/LookupTests.antt =====
-- The lookup and fetch clients, and the UDP front end, at concrete inputs.
use decentralized_dns.Base.{
  Bytes, Bytes-discrete, [], ◌∷◌, true, false, Option, none, some, codes, replicate, ◌≡◌, refl,
}
use decentralized_dns.Base.Text.{trim_space}
use decentralized_dns.Chain.Types.{Record}
use decentralized_dns.Pki.Owner.{at_v, raise_v, field_pairs, verify_owner_sig}
use decentralized_dns.Pki.Resource.{Signing, Envelope, seal_envelope}
use decentralized_dns.Query.Grammar.{name_ok, type_ok}
use decentralized_dns.Query.Selector
use decentralized_dns.Query.Selector.{Query, canonical_selector}
use decentralized_dns.Lookup.Answered.{found_there, lookup-handle_resolve}
use decentralized_dns.Lookup.Client.{
  Verdict, direct, Mode, discovered, check_proof, lookup, right_resolver,
}
use decentralized_dns.Lookup.Compare.{Decoding}
use decentralized_dns.Lookup.Honest.{Texts, IsGenuine, sent}
use decentralized_dns.Lookup.Command
use decentralized_dns.Lookup.Command.{Outside}
use decentralized_dns.Cli.Args
use decentralized_dns.Server.Handle.{QueryResult, found, to_result}
use decentralized_dns.Server.Rest.{
  ResolveResponse, sealed, to_record_json, match, resolve_response, write_signed, handle_resolve,
  parse_resolve_query, add_params,
}
use decentralized_dns.Tests.Instances.{
  plain, plain_laws, secp, sorter, gnark, raw_sig, owner_address,
}

-- a hexadecimal text of m is an x and m
abbrev prefixed_decode : Bytes → Option Bytes
prefixed_decode [] = none
prefixed_decode (c ∷ cs) = some cs

abbrev pub prefixed : Signing
prefixed = record {
  PrivateKey = Unit {0};
  public_of = λ k. replicate 32 1;
  sign = λ k m. replicate 64 2;
  verify = λ k m s. true;
  sha256 = λ m. replicate 32 3;
  hex_encode = λ m. b'x' ∷ m;
  hex_decode = prefixed_decode;
  length-public_of = λ k. refl;
  length-sign = λ k m. refl;
  verify-sign = λ k m. refl;
  length-sha256 = λ m. refl;
  hex_decode-hex_encode = λ m. refl;
}

abbrev pub decoding : Decoding
decoding = record { decode = prefixed_decode; hex_to_address = λ s. s }

abbrev pub same_text : Bytes → Bytes
same_text a = a

texts : Texts secp sorter gnark prefixed decoding same_text
texts = record {
  decode-hex_encode = λ m. refl;
  hex_encode-ne-nil = λ m e. cc;
  hex_to_address-address_hex = λ a h. refl;
}

abbrev entry : Record
entry = record {
  rtype = codes "A";
  selector = [];
  field_names = codes "ip" ∷ [];
  field_vals = codes "1.2.3.4" ∷ [];
  ttl = 60;
  generation = 7;
  owner_sig = at_v raise_v raw_sig;
  commitment = replicate 32 0;
  is_there = true;
}

abbrev result : QueryResult
result = record {
  result = record {
    entry = entry;
    owner = owner_address;
    pub_key = [];
    owner_sig_valid = true;
    zk_proof = [];
  };
  cached = false;
}

abbrev question : Query
question = record { name = codes "alice"; rtype = codes "A"; selector = [] }

genuine : IsGenuine secp sorter gnark prefixed decoding same_text (codes "alice") result
unfolding found verify_owner_sig field_pairs Bytes-discrete
genuine = record {
  is_found = refl;
  is_there = refl;
  owner_length = refl;
  commitment_length = refl;
  is_signed = refl;
}

made : Selector.new plain (codes "alice") (codes "A") [] ≡ Selector.ok question
unfolding Selector.new name_ok type_ok canonical_selector
made = refl

abbrev matched : ResolveResponse
matched = match prefixed same_text question result

abbrev pub envelope : Envelope
envelope = record {
  contents = codes "{}";
  resolver = b'x' ∷ replicate 32 1;
  signature = b'x' ∷ replicate 64 2;
}

abbrev from_chain : Mode
from_chain = discovered (codes "key") (some (to_result (entry, owner_address, [])))

written :
    handle_resolve prefixed same_text tt plain
      (λ r. some (codes "{}"))
      (λ q. some result)
      (sent question)
    ≡ sealed envelope
unfolding handle_resolve parse_resolve_query add_params resolve_response write_signed Bytes-discrete
    Selector.parse_pairs trim_space Selector.new name_ok type_ok canonical_selector seal_envelope
written = refl

is_pinned :
    right_resolver secp sorter gnark prefixed decoding (λ a b. true) from_chain envelope.resolver
    ≡ true
unfolding right_resolver Bytes-discrete
is_pinned = refl

lookup-handle_resolve_example :
    lookup secp sorter gnark prefixed decoding
      (λ a b. true)
      (λ text. some matched)
      from_chain
      question
      (some envelope)
    ≡ check_proof secp sorter gnark prefixed decoding matched
        (to_record_json prefixed same_text entry)
lookup-handle_resolve_example =
    lookup-handle_resolve secp sorter gnark prefixed decoding same_text texts tt plain
      (λ r. some (codes "{}")) (λ text. some matched) (λ a b. true) (λ q. some result)
      (codes "alice") (codes "A") [] question result from_chain envelope plain_laws (λ text h. refl)
      made refl genuine (found_there (codes "key")) is_pinned written

abbrev outside : Outside
outside = record {
  active_resolvers = λ rpc contract. none;
  resolve = λ rpc contract q. none;
  request = λ endpoint params. some (some envelope);
}

abbrev verdict : Verdict
verdict =
    lookup secp sorter gnark prefixed decoding (λ a b. true) (λ text. some matched) direct question
      (some envelope)

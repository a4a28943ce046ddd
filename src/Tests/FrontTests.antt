-- ===== src/Tests/FrontTests.antt =====
-- The fetch client and the UDP front end at concrete inputs.
use decentralized_dns.Base.{
  Bytes, Bytes-discrete, List, [], ◌∷◌, true, some, codes, replicate, ◌≡◌, ◌≤◌, refl, if◌then◌else◌,
  arith,
}
use decentralized_dns.Base.Text.{trim_space, to_lower}
use decentralized_dns.ContentType.{validate}
use decentralized_dns.Lookup.Fetch.{
  wrote, download, download-resource_headers, Transport, ArePlain, is_plain,
}
use decentralized_dns.Pki.Resource.{Signing}
use decentralized_dns.Server.Headers.{page, resource_headers}
use decentralized_dns.Server.Resource.{VerifiedResource}
use decentralized_dns.Server.Udp.{
  UdpCode, Reasons, Event, packet, finished, UdpState, serve_all, in_flight-serve_all,
}
use decentralized_dns.Tests.Instances.{plain, sniffer, rate, owner_address}
use decentralized_dns.Tests.LookupTests.{prefixed, same_text}

abbrev resource : VerifiedResource
resource = record {
  body = codes "abc";
  owner = owner_address;
  pub_key = [];
  info_hash = codes "aa";
  sha = replicate 32 67;
  content_type = codes "text/html";
  zk_proof = [];
  validation = record { declared = codes "text/html"; detected = codes "text/html"; is_ok = true };
  ttl = 60;
}

-- a key pair whose key, signature and digest are letters
abbrev letters : Signing
letters = record prefixed {
  public_of = λ k. replicate 32 65;
  sign = λ k m. replicate 64 66;
  sha256 = λ m. replicate 32 67;
  length-public_of = λ k. refl;
  length-sign = λ k m. refl;
  verify-sign = λ k m. refl;
  length-sha256 = λ m. refl;
}

-- a transport that loses every value that is not plain
abbrev transport : Transport
transport = record { carry = λ s. if is_plain s then s else []; carry_plain = λ s h. rw (h) refl }

abbrev zero_address : Bytes → Bytes
zero_address a = codes "0x00"

carried : ArePlain (resource_headers letters zero_address tt resource)
unfolding resource_headers is_plain Bytes-discrete
carried = record {
  content_type = refl;
  resolver = refl;
  signature = refl;
  owner = refl;
  pub_key = refl;
  info_hash = refl;
  sha256 = refl;
  owner_sig_verified = refl;
  zk_proof = refl;
}

download-resource_headers_example :
    download plain sniffer letters same_text transport 10
      (page (resource_headers letters zero_address tt resource) resource.body)
    ≡ wrote (codes "abc") true
unfolding Bytes-discrete validate to_lower trim_space
download-resource_headers_example =
    download-resource_headers plain sniffer letters same_text transport zero_address tt 10 resource
      carried (omega arith)

abbrev refused_json : UdpCode → Bytes → Bytes
refused_json c message = codes "{}"

abbrev at_rest : UdpState rate refused_json
at_rest = record { limiter = some (record { entries = []; rps = 20; burst = 40 }); in_flight = 0 }

abbrev events : List (Event rate refused_json)
events = packet (codes "1.2.3.4") 7 [] ∷ packet (codes "1.2.3.5") 8 [] ∷ finished ∷ []

in_flight-serve_all_example : (serve_all rate refused_json at_rest events).in_flight ≤ 256
in_flight-serve_all_example = in_flight-serve_all rate refused_json at_rest events (omega arith)

abbrev reasons : Reasons
reasons = record {
  of_query = λ e. codes "bad";
  of_chain = codes "rpc";
  of_sealing = codes "key";
  of_marshalling = codes "json";
}

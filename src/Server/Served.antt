-- ===== src/Server/Served.antt =====
-- fetchVerifiedResource of resolver/internal/server/resource.go: the checks behind a resource that it
-- returns.
use decentralized_dns.Base.{
  Bytes, Bool, true, false, not, ◌||◌, Option, none, some, codes, ◌≡◌, refl, subst, arith,
}
use decentralized_dns.Base.Text.{Unicode}
use decentralized_dns.Chain.Types.{field}
use decentralized_dns.ContentType.{Sniffer, validate}
use decentralized_dns.Server.Handle.{QueryResult, found}
use decentralized_dns.Server.Resource.{
  Code, Outcome, served, refused, ◌>>=◌, require, VerifiedResource, required_field, media_type,
  has_line_break, fetched_body, resolved, fetch_verified_resource, resource_engine_unavailable,
  no_match, owner_signature_invalid, bad_resource_ref, resource_busy, content_type_mismatch,
}
use decentralized_dns.Torrent.Fetch.{Fetched, content, failed}

-- A chain that serves went on from a step that serves.
>>=-eq-served :
    {X Y : Type 0} (first : Outcome X) (next : X → Outcome Y) {y : Y}
    → (first >>= next) ≡ served y
    → (x : X) × (first ≡ served x) × (next x ≡ served y)
>>=-eq-served (refused why) next fails = cc
>>=-eq-served (served x) next rest = (x, refl, rest)

require-true : (b : Bool) (e : Code) (t : Unit {0}) → require b e ≡ served t → b ≡ true
require-true true e t h = refl
require-true false e t h = cc

required_field-some :
    (u : Unicode) (f : Option Bytes) (v : Bytes) → required_field u f ≡ served v → f ≡ some v
unfolding required_field
required_field-some u none v h = cc
required_field-some u (some w) v h = ground arith

resolved-some : (r : Option QueryResult) (q : QueryResult) → resolved r ≡ served q → r ≡ some q
resolved-some none q h = cc
resolved-some (some r) q h = cc

fetched_content : (f : Fetched) (b : Bytes) → fetched_body f ≡ served b → f ≡ content b
fetched_content (content x) b h = cc
fetched_content (failed e) b h = cc

served_inj : {A : Type 0} (x y : A) → served x ≡ served y → x ≡ y
served_inj x y h = cc

not-true : (b : Bool) → not b ≡ true → b ≡ false
not-true b h = ground arith

strict : (ok enforce : Bool) → (ok || not enforce) ≡ true → enforce ≡ true → ok ≡ true
strict ok enforce h e = ground arith

-- What a served resource was checked for, against the answer it came from.
pub record IsChecked (u : Unicode) (n : Sniffer) (enforce_type : Bool)
    (fetch : Bytes → Bytes → Fetched) (res : QueryResult) (v : VerifiedResource) : Type 0 where
  pub is_found : found res ≡ true
  pub is_signed : res.result.owner_sig_valid ≡ true
  pub info_hash_field : field res.result.entry (codes "infoHash") ≡ some v.info_hash
  pub sha_field : field res.result.entry (codes "sha256") ≡ some v.sha
  pub is_fetched : fetch v.info_hash v.sha ≡ content v.body
  pub one_line : has_line_break v.content_type ≡ false
  pub type_verdict : v.validation ≡ validate u n v.content_type v.body
  pub type_enforced : enforce_type ≡ true → v.validation.is_ok ≡ true
  pub is_owner : v.owner ≡ res.result.owner
  pub is_key : v.pub_key ≡ res.result.pub_key

-- A resource that fetchVerifiedResource returns comes from a record that was found with a valid owner
-- signature, under the infoHash and sha256 fields of that record, as the engine's verified content,
-- with a content type on one line, and in strict mode one that agrees with the bytes.
pub fetch_verified_resource-IsChecked :
    (u : Unicode) (n : Sniffer) (enabled enforce_type : Bool) (answer : Option QueryResult)
    (free : Bool) (fetch : Bytes → Bytes → Fetched) (v : VerifiedResource)
    → fetch_verified_resource u n enabled enforce_type answer free fetch ≡ served v
    → (res : QueryResult) × (answer ≡ some res) × IsChecked u n enforce_type fetch res v
unfolding fetch_verified_resource
fetch_verified_resource-IsChecked u n enabled enforce_type answer free fetch v h =
    let (_, _, h1) = >>=-eq-served (require enabled resource_engine_unavailable) _ h in
    let (res, answered, h2) = >>=-eq-served (resolved answer) _ h1 in
    let (t3, is_found, h3) = >>=-eq-served (require (found res) no_match) _ h2 in
    let (t4, signed, h4) =
      >>=-eq-served (require res.result.owner_sig_valid owner_signature_invalid) _ h3 in
    let (info_hash, info, h5) =
      >>=-eq-served (required_field u (field res.result.entry (codes "infoHash"))) _ h4 in
    let (sha, sha_there, h6) =
      >>=-eq-served (required_field u (field res.result.entry (codes "sha256"))) _ h5 in
    let kind = media_type u (field res.result.entry (codes "contentType")) in
    let (t7, clean, h7) =
      >>=-eq-served (require (not (has_line_break kind)) bad_resource_ref) _ h6 in
    let (_, _, h8) = >>=-eq-served (require free resource_busy) _ h7 in
    let (body, fetched, h9) = >>=-eq-served (fetched_body (fetch info_hash sha)) _ h8 in
    let (t10, typed, h10) =
      >>=-eq-served
        (require ((validate u n kind body).is_ok || not enforce_type) content_type_mismatch) _ h9 in
    let made : VerifiedResource = record {
      body = body;
      owner = res.result.owner;
      pub_key = res.result.pub_key;
      info_hash = info_hash;
      sha = sha;
      content_type = kind;
      zk_proof = res.result.zk_proof;
      validation = validate u n kind body;
      ttl = res.result.entry.ttl;
    } in
    let same : made ≡ v = served_inj made v h10 in
    let checked : IsChecked u n enforce_type fetch res made = record {
      is_found = require-true (found res) no_match t3 is_found;
      is_signed = require-true res.result.owner_sig_valid owner_signature_invalid t4 signed;
      info_hash_field =
          required_field-some u (field res.result.entry (codes "infoHash")) info_hash info;
      sha_field = required_field-some u (field res.result.entry (codes "sha256")) sha sha_there;
      is_fetched = fetched_content (fetch info_hash sha) body fetched;
      one_line =
          not-true (has_line_break kind)
            (require-true (not (has_line_break kind)) bad_resource_ref t7 clean);
      type_verdict = refl;
      type_enforced =
          strict (validate u n kind body).is_ok enforce_type
            (require-true _ content_type_mismatch t10 typed);
      is_owner = refl;
      is_key = refl;
    } in
    (
      res,
      resolved-some answer res answered,
      subst (λ x. IsChecked u n enforce_type fetch res x) same checked,
    )

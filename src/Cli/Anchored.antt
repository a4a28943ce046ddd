-- ===== src/Cli/Anchored.antt =====
-- What `ddns set` of resolver/cmd/ddns/main.go writes, against how a resolver judges it.
use decentralized_dns.Base.{
  Bytes, List, [], ◌∷◌, true, none, some, drop, length, ◌≡◌, ◌⊎◌, inl, inr, refl, ◌∙◌, arith,
  Option-cases,
}
use decentralized_dns.Base.Text.{Unicode}
use decentralized_dns.Config.Env.{Environment}
use decentralized_dns.Chain.Types.{Record, Domain, with_sig}
use decentralized_dns.Pki.Owner.{
  Secp, SliceSort, record_message, write_message, is_placeholder_pub_key, verify_owner_sig,
  sign_record,
}
use decentralized_dns.Pki.Verify.{verify_owner_sig-sign_record}
use decentralized_dns.Server.Handle.{to_result, checked}
use decentralized_dns.Zk.Pack.{Gnark, commitment}
use decentralized_dns.Cli.Addresses.{Tools}
use decentralized_dns.Cli.Fields.{fields_string-parse_pairs}
use decentralized_dns.Cli.Script.{Tx, set_record, Network, ran, or_fatal, Conn}
use decentralized_dns.Cli.Owner.{record_commitment, publish, cmd_set}
use decentralized_dns.Cli.Published.{
  >>=-quiet, or_fatal-IsQuiet, or_fatal-ran, need_arg-IsQuiet, parse_args-IsQuiet,
  canonical-IsQuiet, dial-IsQuiet, generation_of-IsQuiet, generation_of-ran, send-ran,
}

-- The record as it stands on chain once the transaction is mined.
abbrev pub on_chain : Record → Bytes → Bytes → Record
on_chain rec sig hash = record {
  rtype = rec.rtype;
  selector = rec.selector;
  field_names = rec.field_names;
  field_vals = rec.field_vals;
  ttl = rec.ttl;
  generation = rec.generation;
  owner_sig = sig;
  commitment = hash;
  is_there = true;
}

module _ (c : Secp) (o : SliceSort) (g : Gnark) where
  -- How a resolver judges the record that a transaction sets, when the chain answers with the owner
  -- and the key of the one who signed it.
  pub record IsAnchored (net : Network) (txs : List Tx) : Type 0 where
    pub key : c.PrivateKey
    pub name : Bytes
    pub rec : Record
    pub sig : Bytes
    pub hash : Bytes
    pub domain : Domain
    pub is_set :
        set_record name rec.rtype rec.selector rec.field_names rec.field_vals rec.ttl sig hash ∷ []
        ≡ txs
    pub is_domain : net.get_domain name ≡ some domain
    pub is_current : domain.generation ≡ rec.generation
    pub is_verified :
        (pub_key : Bytes)
        → (is_placeholder_pub_key pub_key ≡ true) ⊎ (c.from_ecdsa_pub (c.public_key key) ≡ pub_key)
        → (checked c o g name (
            to_result (
              on_chain rec sig hash,
              c.pubkey_to_address (c.public_key key),
              pub_key,
            ))).owner_sig_valid
          ≡ true
    pub is_provable :
        (m : Bytes) × (record_message o name rec ≡ some m) × (commitment g m ≡ some hash)

  pub verify_owner_sig-on_chain :
      (name : Bytes) (rec : Record) (sig hash owner pub_key : Bytes)
      → verify_owner_sig c o name (on_chain rec sig hash) owner pub_key
        ≡ verify_owner_sig c o name (with_sig rec sig) owner pub_key
  unfolding verify_owner_sig write_message
  verify_owner_sig-on_chain name rec sig hash owner pub_key = refl

  pub owner_sig_valid-checked :
      (name : Bytes) (rec : Record) (owner pub_key : Bytes)
      → verify_owner_sig c o name rec owner pub_key ≡ none
      → (checked c o g name (to_result (rec, owner, pub_key))).owner_sig_valid ≡ true
  unfolding checked
  owner_sig_valid-checked name rec owner pub_key h = ground arith

  record_commitment-some :
      (t : Tools c) (env : Environment) (u : Unicode) (net : Network) (name : Bytes) (rec : Record)
      (hash : Bytes)
      → record_commitment c o g t env u net name rec ≡ some hash
      → (m : Bytes) × (record_message o name rec ≡ some m) × (commitment g m ≡ some hash)
  unfolding record_commitment
  record_commitment-some t env u net name rec hash h =
      elim (Option-cases (record_message o name rec)) [
        | inl e ↦ absurd (ground (arith, e))
        | inr (m, e) ↦ (m, e, ground (arith, e))
      ]

  module _ (t : Tools c) (env : Environment) (u : Unicode) (net : Network) where
    publish-ran :
        (conn : Conn c t env u net) (name : Bytes) (rec : Record) (txs : List Tx)
        → publish c o g t env u net conn name rec ≡ ran txs tt
        → (sig hash : Bytes) × (sign_record c o name rec conn.key ≡ some sig)
          × (record_commitment c o g t env u net name rec ≡ some hash)
          × (set_record name rec.rtype rec.selector rec.field_names rec.field_vals rec.ttl sig hash
                ∷ []
              ≡ txs)
    unfolding publish
    publish-ran conn name rec txs h =
        let (sig, e, k) = >>=-quiet (or_fatal _) _ txs tt (or_fatal-IsQuiet _) h in
        let (hash, f, last) = >>=-quiet (or_fatal _) _ txs tt (or_fatal-IsQuiet _) k in
        (
          sig,
          hash,
          or_fatal-ran _ sig e,
          or_fatal-ran _ hash f,
          send-ran c o g t env u net _ txs last,
        )

    publish-IsAnchored :
        (conn : Conn c t env u net) (name : Bytes) (rec : Record) (domain : Domain) (txs : List Tx)
        → length rec.field_names ≡ length rec.field_vals
        → net.get_domain name ≡ some domain
        → domain.generation ≡ rec.generation
        → publish c o g t env u net conn name rec ≡ ran txs tt
        → IsAnchored net txs
    publish-IsAnchored conn name rec domain txs same is_domain is_current h =
        let (sig, hash, signed, committed, set) = publish-ran conn name rec txs h in
        record {
          key = conn.key;
          name = name;
          rec = rec;
          sig = sig;
          hash = hash;
          domain = domain;
          is_set = set;
          is_domain = is_domain;
          is_current = is_current;
          is_verified = λ pub_key k.
              owner_sig_valid-checked name (on_chain rec sig hash)
                (c.pubkey_to_address (c.public_key conn.key)) pub_key
                (verify_owner_sig-on_chain name rec sig hash
                    (c.pubkey_to_address (c.public_key conn.key)) pub_key
                  ∙ verify_owner_sig-sign_record c o name rec conn.key sig pub_key same signed k);
          is_provable = record_commitment-some t env u net name rec hash committed;
        }

    -- A run of `ddns set` that succeeds has submitted one record, signed under the current generation
    -- of the domain: when the chain answers with that record and the signer's address and registered
    -- or placeholder key, a resolver marks it as verified, and its commitment is that of its message.
    pub cmd_set-IsAnchored :
        (args : List Bytes) (txs : List Tx)
        → cmd_set c o g t env u net args ≡ ran txs tt
        → IsAnchored net txs
    unfolding cmd_set
    cmd_set-IsAnchored args txs h0 =
        let (p, _, h1) = >>=-quiet _ _ txs tt (parse_args-IsQuiet _ _ _) h0 in
        let (name, _, h2) = >>=-quiet _ _ txs tt (need_arg-IsQuiet _ _) h1 in
        let (rtype, _, h3) = >>=-quiet _ _ txs tt (need_arg-IsQuiet _ _) h2 in
        let (fields, e, h4) = >>=-quiet (or_fatal _) _ txs tt (or_fatal-IsQuiet _) h3 in
        let (sel, _, h5) = >>=-quiet _ _ txs tt (canonical-IsQuiet c o g t env u net _) h4 in
        let (conn, _, h6) = >>=-quiet _ _ txs tt (dial-IsQuiet c o g t env u net _ _) h5 in
        let (n, f, h7) = >>=-quiet _ _ txs tt (generation_of-IsQuiet c o g t env u net _) h6 in
        let (domain, is_domain, is_current) = generation_of-ran c o g t env u net name n f in
        let parsed = or_fatal-ran _ fields e in
        publish-IsAnchored conn name _ domain txs
          (fields_string-parse_pairs (drop 2 p.1) fields.0 fields.1 parsed).0 is_domain is_current
          h7

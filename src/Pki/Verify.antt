-- ===== src/Pki/Verify.antt =====
-- `VerifyOwnerSig` and `SignRecord` of resolver/internal/pki/owner.go.
use decentralized_dns.Base.{
  ℕ, ◌<◌, Bytes, List, [], ◌∷◌, ◌++◌, true, none, some, ◌≡◌, ◌≢◌, ◌⊎◌, inl, inr, refl, sym, ap, ◌∙◌,
  subst, ◌==◌, length, take-append, drop-append, length-append, ℕ_discrete, Option-cases,
  Bool-cases, arith,
}
use decentralized_dns.Chain.Types.{Record, with_sig}
use decentralized_dns.Query.Selector.{Pair}
use decentralized_dns.Pki.Owner.{
  SliceSort, Secp, index_panic, field_pairs, write_message, record_message, is_placeholder_pub_key,
  at_v, lower_v, raise_v, check_recovered, verify_owner_sig, sign_record,
}

field_pairs-same_length :
    (ns vs : List Bytes) → length ns ≡ length vs → (ps : List Pair) × (field_pairs ns vs ≡ some ps)
unfolding field_pairs
field_pairs-same_length [] vs h = ([], refl)
field_pairs-same_length (n ∷ ns) [] h = absurd (omega arith)
field_pairs-same_length (n ∷ ns) (v ∷ vs) h =
    let (ps, e) = field_pairs-same_length ns vs (omega arith) in ((n, v) ∷ ps, rw e)

record_message-some :
    (o : SliceSort) (name : Bytes) (r : Record)
    → length r.field_names ≡ length r.field_vals
    → (m : Bytes) × (record_message o name r ≡ some m)
unfolding record_message
record_message-some o name r h =
    let (ps, e) = field_pairs-same_length r.field_names r.field_vals h in
    (write_message name r (o.sort ps), rw (record_message, e))

-- `VerifyOwnerSig` never reads a field value out of range.
pub verify_owner_sig-ne-index_panic :
    (c : Secp) (o : SliceSort) (name : Bytes) (r : Record) (owner pub_key : Bytes)
    → verify_owner_sig c o name r owner pub_key ≢ some index_panic
unfolding verify_owner_sig check_recovered
verify_owner_sig-ne-index_panic c o name r owner pub_key h =
    elim (ℕ_discrete (length r.field_names) (length r.field_vals)) [
      | no ne ↦ ground arith
      | yes same ↦
          let (m, e) = record_message-some o name r same in
          elim (Option-cases (c.sig_to_pub (c.text_hash m) (at_v lower_v r.owner_sig))) [
            | inl f ↦ ground (arith, e, f)
            | inr (pk, f) ↦ ground (arith, e, f)
          ]
    ]

-- what an accepted signature shows
pub record Accepted (c : Secp) (o : SliceSort) (name : Bytes) (r : Record) (owner pub_key : Bytes)
    : Type 0 where
  pub signer : c.PublicKey
  pub message : Bytes
  pub is_message : record_message o name r ≡ some message
  pub recovers : c.sig_to_pub (c.text_hash message) (at_v lower_v r.owner_sig) ≡ some signer
  pub is_owner : c.pubkey_to_address signer ≡ owner
  pub is_key : (is_placeholder_pub_key pub_key ≡ true) ⊎ (c.from_ecdsa_pub signer ≡ pub_key)

recovered-Accepted :
    (c : Secp) (o : SliceSort) (name : Bytes) (r : Record) (owner pub_key m : Bytes)
    (pk : c.PublicKey)
    → record_message o name r ≡ some m
    → c.sig_to_pub (c.text_hash m) (at_v lower_v r.owner_sig) ≡ some pk
    → check_recovered c (some pk) owner pub_key ≡ none
    → Accepted c o name r owner pub_key
unfolding check_recovered
recovered-Accepted c o name r owner pub_key m pk e f h =
    let Key : Type 0 = (is_placeholder_pub_key pub_key ≡ true) ⊎ (c.from_ecdsa_pub pk ≡ pub_key) in
    let key : Key = elim (Bool-cases (is_placeholder_pub_key pub_key)) [
      | inl p ↦ inl p
      | inr p ↦ inr (ground arith)
    ] in
    record {
      signer = pk;
      message = m;
      is_message = e;
      recovers = f;
      is_owner = ground arith;
      is_key = key;
    }

-- A signature that `VerifyOwnerSig` accepts recovers, over the canonical message of the record, to a
-- key whose address is the owner, and which is the registered key unless that is a placeholder.
pub verify_owner_sig-Accepted :
    (c : Secp) (o : SliceSort) (name : Bytes) (r : Record) (owner pub_key : Bytes)
    → verify_owner_sig c o name r owner pub_key ≡ none
    → Accepted c o name r owner pub_key
unfolding verify_owner_sig
verify_owner_sig-Accepted c o name r owner pub_key h =
    elim (ℕ_discrete (length r.field_names) (length r.field_vals)) [
      | no ne ↦ absurd (ground arith)
      | yes same ↦
          let (m, e) = record_message-some o name r same in
          let accepted : check_recovered c (c.sig_to_pub (c.text_hash m) (at_v lower_v r.owner_sig))
                owner pub_key
              ≡ none =
            ground (arith, e) in
          elim (Option-cases (c.sig_to_pub (c.text_hash m) (at_v lower_v r.owner_sig))) [
            | inl f ↦ absurd (unfold check_recovered in ground (arith, f))
            | inr (pk, f) ↦
                recovered-Accepted c o name r owner pub_key m pk e f
                  (subst (λ x. check_recovered c x owner pub_key ≡ none) f accepted)
          ]
    ]

lower_v-raise_v : (v : ℕ) → v < 2 → lower_v (raise_v v) ≡ v
lower_v-raise_v v h = ground arith

-- The V byte that `SignRecord` raises is the one that `VerifyOwnerSig` lowers.
at_v-at_v :
    (rs : Bytes) (v : ℕ)
    → length rs ≡ 64
    → v < 2
    → (at_v lower_v (at_v raise_v (rs ++ (v ∷ []))) ≡ rs ++ (v ∷ []))
      × (length (at_v raise_v (rs ++ (v ∷ []))) ≡ 65)
at_v-at_v rs v n h =
    let raised : at_v raise_v (rs ++ (v ∷ [])) ≡ rs ++ (raise_v v ∷ []) =
      rw (take-append rs (v ∷ []) 64 (sym n), drop-append rs (v ∷ []) 64 (sym n)) refl in
    let lowered : at_v lower_v (rs ++ (raise_v v ∷ [])) ≡ rs ++ (lower_v (raise_v v) ∷ []) =
      rw (take-append rs (raise_v v ∷ []) 64 (sym n), drop-append rs (raise_v v ∷ []) 64 (sym n))
        refl in
    (
      ap (at_v lower_v) raised ∙ lowered ∙ ap (λ x. rs ++ (x ∷ [])) (lower_v-raise_v v h),
      ap length raised ∙ length-append rs (raise_v v ∷ []) ∙ ground (arith, n),
    )

signed :
    (c : Secp) (o : SliceSort) (name : Bytes) (r : Record) (key : c.PrivateKey) (sig m : Bytes)
    → record_message o name r ≡ some m
    → sign_record c o name r key ≡ some sig
    → (raw : Bytes) × (c.sign (c.text_hash m) key ≡ some raw) × (at_v raise_v raw ≡ sig)
unfolding sign_record
signed c o name r key sig m e h = elim (Option-cases (c.sign (c.text_hash m) key)) [
  | inl f ↦ absurd (ground (arith, e, f))
  | inr (raw, f) ↦ (raw, f, ground (arith, e, f))
]

-- What `SignRecord` writes: 65 bytes that recover, with V lowered, to the signer's key.
pub signed-recovers :
    (c : Secp) (d raw : Bytes) (key : c.PrivateKey)
    → c.sign d key ≡ some raw
    → (length (at_v raise_v raw) ≡ 65)
      × (c.sig_to_pub d (at_v lower_v (at_v raise_v raw)) ≡ some (c.public_key key))
signed-recovers c d raw key e =
    let (rs, v, n, small, shape) = c.sign_format d key raw e in
    let (back, size) = at_v-at_v rs v n small in
    (
      ap (λ x. length (at_v raise_v x)) shape ∙ size,
      ap (c.sig_to_pub d) (ap (λ x. at_v lower_v (at_v raise_v x)) shape ∙ back ∙ sym shape)
          ∙ c.sig_to_pub-sign d key raw e,
    )

check_recovered-none :
    (c : Secp) (pk : c.PublicKey) (pub_key : Bytes)
    → (is_placeholder_pub_key pub_key ≡ true) ⊎ (c.from_ecdsa_pub pk ≡ pub_key)
    → check_recovered c (some pk) (c.pubkey_to_address pk) pub_key ≡ none
unfolding check_recovered
check_recovered-none c pk pub_key (inl h) = ground arith
check_recovered-none c pk pub_key (inr h) = ground arith

verify_owner_sig-eq :
    (c : Secp) (o : SliceSort) (name : Bytes) (r : Record) (owner pub_key m : Bytes)
    → length r.field_names ≡ length r.field_vals
    → length r.owner_sig ≡ 65
    → record_message o name r ≡ some m
    → verify_owner_sig c o name r owner pub_key
      ≡ check_recovered c (c.sig_to_pub (c.text_hash m) (at_v lower_v r.owner_sig)) owner pub_key
unfolding verify_owner_sig
verify_owner_sig-eq c o name r owner pub_key m same size e =
    let paired : (length r.field_names == length r.field_vals) ≡ true = ground (arith, same) in
    let sized : (length r.owner_sig == 65) ≡ true = ground (arith, size) in
    rw (verify_owner_sig, paired, sized, e)

-- The message does not cover the signature.
record_message-with_sig :
    (o : SliceSort) (name : Bytes) (r : Record) (sig : Bytes)
    → record_message o name (with_sig r sig) ≡ record_message o name r
unfolding record_message write_message
record_message-with_sig o name r sig = refl

-- A signature that `SignRecord` makes with a key is accepted for the address of that key, whether
-- the registered public key is a placeholder or that of the signer.
pub verify_owner_sig-sign_record :
    (c : Secp) (o : SliceSort) (name : Bytes) (r : Record) (key : c.PrivateKey)
    (sig pub_key : Bytes)
    → length r.field_names ≡ length r.field_vals
    → sign_record c o name r key ≡ some sig
    → (is_placeholder_pub_key pub_key ≡ true) ⊎ (c.from_ecdsa_pub (c.public_key key) ≡ pub_key)
    → verify_owner_sig c o name (with_sig r sig) (c.pubkey_to_address (c.public_key key)) pub_key
      ≡ none
verify_owner_sig-sign_record c o name r key sig pub_key same h k =
    let (m, e) = record_message-some o name r same in
    let owner = c.pubkey_to_address (c.public_key key) in
    let e' : record_message o name (with_sig r sig) ≡ some m =
      record_message-with_sig o name r sig ∙ e in
    let (raw, made, raised) = signed c o name r key sig m e h in
    let (size, back) = signed-recovers c (c.text_hash m) raw key made in
    verify_owner_sig-eq c o name (with_sig r sig) owner pub_key m same
      (ap length (sym raised) ∙ size) e'
    ∙ ap (λ s. check_recovered c (c.sig_to_pub (c.text_hash m) (at_v lower_v s)) owner pub_key)
        (sym raised)
    ∙ ap (λ p. check_recovered c p owner pub_key) back
    ∙ check_recovered-none c (c.public_key key) pub_key k

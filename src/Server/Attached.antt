-- ===== src/Server/Attached.antt =====
-- The proof that resolver/internal/server/handle.go attaches to an answer.
use decentralized_dns.Base.{
  ℕ, ◌==◌, Bytes, Bytes-discrete, List, [], Bool, true, false, not, Option, none, some, ite,
  if◌then◌else◌, length, replicate, ◌≡◌, refl, sym, subst, Option-cases, inl, inr, arith,
}
use decentralized_dns.Chain.Types.{Record}
use decentralized_dns.Pki.Owner.{Secp, SliceSort, record_message}
use decentralized_dns.Zk.Pack.{Gnark, pack_message, commitment, prove}
use decentralized_dns.Server.Handle.{prove_message, prove_record}

-- Completeness of Groth16: a proof that the prover made of a preimage verifies for its hash.
abbrev pub IsComplete : Gnark → Type 0
IsComplete g =
    (elements : List ℕ) (hash : Bytes) (p : g.Proof)
    → g.mimc elements ≡ some hash
    → g.prove elements hash ≡ some p
    → g.verify p hash ≡ true

module _ (c : Secp) (o : SliceSort) (g : Gnark) (complete : IsComplete g) where
  -- what a resolver attaches: nothing, or a proof that verifies for the commitment
  pub data IsAttached (hash : Bytes) : Bytes → Type 0 where
    nothing : IsAttached hash []
    proof : (p : g.Proof) → g.verify p hash ≡ true → IsAttached hash (g.marshal_solidity p)

  ite-IsAttached :
      (hash : Bytes) {P : Type 0} (d : Dec P) (b : Bytes)
      → (P → IsAttached hash b)
      → IsAttached hash (ite d b [])
  ite-IsAttached hash (yes p) b h = h p
  ite-IsAttached hash (no n) b h = nothing

  ite-IsAttached_else :
      (hash : Bytes) {P : Type 0} (d : Dec P) (b : Bytes)
      → IsAttached hash b
      → IsAttached hash (ite d [] b)
  ite-IsAttached_else hash (yes p) b h = nothing
  ite-IsAttached_else hash (no n) b h = h

  prove-verify :
      (msg hash : Bytes) (p : g.Proof)
      → commitment g msg ≡ some hash
      → prove g msg ≡ some p
      → g.verify p hash ≡ true
  unfolding commitment prove
  prove-verify msg hash p h k = elim (Option-cases (pack_message msg)) [
    | inl e ↦ absurd (ground (arith, e))
    | inr (elements, e) ↦ complete elements hash p (ground (arith, e)) (ground (arith, e))
  ]

  attach : Bytes → Option Bytes → Option g.Proof → Bytes
  attach hash m x = elim m [
    | none ↦ []
    | some made ↦
        ite (Bytes-discrete made hash) (elim x [ none ↦ [] | some p ↦ g.marshal_solidity p ]) []
  ]

  attach-IsAttached :
      (hash : Bytes) (m : Option Bytes) (x : Option g.Proof)
      → ((made : Bytes) (p : g.Proof) → m ≡ some made → x ≡ some p → g.verify p made ≡ true)
      → IsAttached hash (attach hash m x)
  unfolding attach
  attach-IsAttached hash none x h = nothing
  attach-IsAttached hash (some made) none h =
      ite-IsAttached hash (Bytes-discrete made hash) [] (λ e. nothing)
  attach-IsAttached hash (some made) (some p) h =
      ite-IsAttached hash (Bytes-discrete made hash) (g.marshal_solidity p)
        (λ e. proof p (subst (λ b. g.verify p b ≡ true) e (h made p refl refl)))

  prove_message-eq :
      (hash msg : Bytes)
      → prove_message c o g hash msg ≡ attach hash (commitment g msg) (prove g msg)
  unfolding prove_message attach
  prove_message-eq hash msg = refl

  prove_message-IsAttached : (hash msg : Bytes) → IsAttached hash (prove_message c o g hash msg)
  prove_message-IsAttached hash msg =
      subst (IsAttached hash) (sym (prove_message-eq hash msg)) (
        attach-IsAttached hash (commitment g msg) (prove g msg) (λ made p. prove-verify msg made p))

  recorded : Bytes → Bool → Option Bytes → Bytes
  recorded hash same m =
      if not same then [] else elim m [ none ↦ [] | some msg ↦ prove_message c o g hash msg ]

  recorded-IsAttached :
      (hash : Bytes) (same : Bool) (m : Option Bytes) → IsAttached hash (recorded hash same m)
  unfolding recorded
  recorded-IsAttached hash false m = nothing
  recorded-IsAttached hash true none = nothing
  recorded-IsAttached hash true (some msg) = prove_message-IsAttached hash msg

  prove_record-eq :
      (name : Bytes) (rec : Record)
      → prove_record c o g name rec
        ≡ ite (Bytes-discrete rec.commitment (replicate 32 0)) [] (
            recorded rec.commitment
              (length rec.field_names == length rec.field_vals)
              (record_message o name rec))
  unfolding prove_record recorded
  prove_record-eq name rec = refl

  -- A resolver attaches nothing to an answer, or a proof that verifies for the record's commitment.
  pub prove_record-IsAttached :
      (name : Bytes) (rec : Record) → IsAttached rec.commitment (prove_record c o g name rec)
  prove_record-IsAttached name rec =
      subst (IsAttached rec.commitment) (sym (prove_record-eq name rec)) (
        ite-IsAttached_else rec.commitment (Bytes-discrete rec.commitment (replicate 32 0)) _
          (recorded-IsAttached rec.commitment _ _))

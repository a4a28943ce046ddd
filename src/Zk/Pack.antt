-- ===== src/Zk/Pack.antt =====
-- resolver/internal/zk/zk.go and prove.go: a message as field elements, its commitment and its proof.
use decentralized_dns.Base.{
  ℕ, zero, suc, ◌+◌, ◌*◌, Bytes, List, [], ◌∷◌, Bool, Option, none, some, ltb, if◌then◌else◌,
  length, take, drop,
}

abbrev pub chunk_size : ℕ
chunk_size = 31

abbrev pub max_chunks : ℕ
max_chunks = 16

abbrev pub max_payload : ℕ
max_payload = chunk_size * max_chunks

-- big.Int.SetBytes: a big-endian number, with what is already read
unfoldable pub value_of : ℕ → Bytes → ℕ
value_of acc [] = acc
value_of acc (b ∷ bs) = value_of (acc * 256 + b) bs

-- The loop over n chunks; past the end of the message a chunk is empty, and the last one is short.
unfoldable pub pack_chunks : ℕ → Bytes → List ℕ
unfolding value_of
pack_chunks zero msg = []
pack_chunks (suc n) msg = value_of 0 (take chunk_size msg) ∷ pack_chunks n (drop chunk_size msg)

-- PackMessage; `none` is ErrPayloadTooLarge.
unfoldable pub pack_message : Bytes → Option (List ℕ)
unfolding pack_chunks
pack_message msg =
    if ltb max_payload (length msg) then none else some (length msg ∷ pack_chunks max_chunks msg)

-- gnark's MiMC hash of field elements, and its Groth16 prover and verifier for the circuit of zk.go
-- (its witness, and the commitment that it is for), with the serialisation to calldata
pub record Gnark : Type 1 where
  pub Proof : Type 0
  pub mimc : List ℕ → Option Bytes
  pub prove : List ℕ → Bytes → Option Proof
  pub marshal_solidity : Proof → Bytes
  -- a field element, and the proof of the eight coordinates in the order of the calldata
  pub Element : Type 0
  pub set_bytes_canonical : Bytes → Option Element
  pub assemble :
      Element → Element → Element → Element → Element → Element → Element → Element → Proof
  pub verify : Proof → Bytes → Bool

unfoldable pub commitment : Gnark → Bytes → Option Bytes
unfolding pack_message
commitment g msg = elim (pack_message msg) [ none ↦ none | some elements ↦ g.mimc elements ]

-- assignment and Prove
unfoldable pub prove : (g : Gnark) → Bytes → Option g.Proof
unfolding pack_message commitment
prove g msg = elim (pack_message msg) [
  | none ↦ none
  | some elements ↦ elim (commitment g msg) [ none ↦ none | some hash ↦ g.prove elements hash ]
]

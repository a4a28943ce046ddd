-- ===== src/Zk/Calldata.antt =====
-- ProofFromSolidityCalldata and Verify of resolver/internal/zk/prove.go.
use decentralized_dns.Base.{
  ℕ, zero, suc, ◌+◌, ◌*◌, Bytes, List, [], ◌∷◌, ◌++◌, not, ◌==◌, ==_iff, Option, none, some,
  if◌then◌else◌, length, take, drop, get_elem?, take-append, length-append, append-nil, ◌≡◌, refl,
  sym, ap, ◌∙◌, arith,
}
use decentralized_dns.Zk.Pack.{Gnark}

-- data[i : i + 32]
abbrev pub word : ℕ → Bytes → Bytes
word i d = take 32 (drop i d)

infixl 5 ◌>>=◌
abbrev ◌>>=◌ : {A B : Type 0} → Option A → (A → Option B) → Option B
none >>= next = none
some a >>= next = next a

-- ProofFromSolidityCalldata; `none` is an error.
unfoldable pub proof_from_calldata : (g : Gnark) → Bytes → Option g.Proof
proof_from_calldata g d = if not (length d == 256) then none else do
  ar_x ← g.set_bytes_canonical (word 0 d)
  ar_y ← g.set_bytes_canonical (word 32 d)
  bs_x1 ← g.set_bytes_canonical (word 64 d)
  bs_x0 ← g.set_bytes_canonical (word 96 d)
  bs_y1 ← g.set_bytes_canonical (word 128 d)
  bs_y0 ← g.set_bytes_canonical (word 160 d)
  krs_x ← g.set_bytes_canonical (word 192 d)
  krs_y ← g.set_bytes_canonical (word 224 d)
  some (g.assemble ar_x ar_y bs_x1 bs_x0 bs_y1 bs_y0 krs_x krs_y)

-- The layout of MarshalSolidity: "8 uint256 words (A.X, A.Y, B.X1, B.X0, B.Y1, B.Y0, C.X, C.Y)",
-- each the canonical bytes of a coordinate.
pub record Layout (g : Gnark) : Type 0 where
  pub bytes : g.Element → Bytes
  pub length-bytes : (e : g.Element) → length (bytes e) ≡ 32
  pub set_bytes : (e : g.Element) → g.set_bytes_canonical (bytes e) ≡ some e
  pub coordinates :
      (p : g.Proof)
      → (a b c d e f h k : g.Element) × (g.assemble a b c d e f h k ≡ p)
        × (g.marshal_solidity p
            ≡ bytes a
              ++ (bytes b
                  ++ (bytes c ++ (bytes d ++ (bytes e ++ (bytes f ++ (bytes h ++ bytes k)))))))

word-zero : (xs ys : Bytes) → length xs ≡ 32 → word 0 (xs ++ ys) ≡ xs
word-zero xs ys h = take-append xs ys 32 (sym h)

drop-skip : (i j : ℕ) (xs ys : Bytes) → j ≡ length xs + i → drop j (xs ++ ys) ≡ drop i ys
drop-skip i j [] ys e = let same : j ≡ i = omega arith in ap (λ k. drop k ys) same
drop-skip i zero (x ∷ xs) ys e = absurd (omega arith)
drop-skip i (suc j) (x ∷ xs) ys e = drop-skip i j xs ys (omega arith)

word-skip : (i j : ℕ) (xs ys : Bytes) → length xs ≡ 32 → j ≡ 32 + i → word j (xs ++ ys) ≡ word i ys
word-skip i j xs ys h e = ap (take 32) (drop-skip i j xs ys (omega arith))

word-all : (xs : Bytes) → length xs ≡ 32 → word 0 xs ≡ xs
word-all xs h = ap (take 32) (sym (append-nil xs)) ∙ word-zero xs [] h ∙ refl

module _ (g : Gnark) (l : Layout g) where
  open l use {bytes, length-bytes}

  abbrev cat : List g.Element → Bytes
  cat [] = []
  cat (x ∷ []) = bytes x
  cat (x ∷ y ∷ xs) = bytes x ++ cat (y ∷ xs)

  word-cat :
      (i n : ℕ) (xs : List g.Element) (x : g.Element)
      → n ≡ 32 * i
      → get_elem? xs i ≡ some x
      → word n (cat xs) ≡ bytes x
  word-cat i n [] x e h = cc
  word-cat zero n (y ∷ []) x e h =
      let first : n ≡ 0 = omega arith in
      let same : y ≡ x = cc in
      ap (λ k. word k (bytes y)) first ∙ word-all (bytes y) (length-bytes y) ∙ ap bytes same
  word-cat zero n (y ∷ z ∷ xs) x e h =
      let first : n ≡ 0 = omega arith in
      let same : y ≡ x = cc in
      ap (λ k. word k (bytes y ++ cat (z ∷ xs))) first
      ∙ word-zero (bytes y) (cat (z ∷ xs)) (length-bytes y)
      ∙ ap bytes same
  word-cat (suc i) n (y ∷ []) x e h = cc
  word-cat (suc i) n (y ∷ z ∷ xs) x e h =
      word-skip (32 * i) n (bytes y) (cat (z ∷ xs)) (length-bytes y) (omega arith)
      ∙ word-cat i (32 * i) (z ∷ xs) x refl h

  -- the concatenation of eight words
  abbrev eight : (a b c d e f h k : g.Element) → Bytes
  eight a b c d e f h k = cat (a ∷ b ∷ c ∷ d ∷ e ∷ f ∷ h ∷ k ∷ [])

  length-eight : (a b c d e f h k : g.Element) → length (eight a b c d e f h k) ≡ 256
  length-eight a b c d e f h k = omega (
    arith,
    length-append {0},
    length-bytes a,
    length-bytes b,
    length-bytes c,
    length-bytes d,
    length-bytes e,
    length-bytes f,
    length-bytes h,
    length-bytes k,
  )

  proof_from_calldata-eight :
      (a b c d e f h k : g.Element)
      → proof_from_calldata g (eight a b c d e f h k) ≡ some (g.assemble a b c d e f h k)
  unfolding proof_from_calldata
  proof_from_calldata-eight a b c d e f h k =
      let sized = (==_iff (length (eight a b c d e f h k)) 256).1 (length-eight a b c d e f h k) in
      let xs = a ∷ b ∷ c ∷ d ∷ e ∷ f ∷ h ∷ k ∷ [] in
      rw
        (
          sized,
          word-cat 0 0 xs a refl refl,
          word-cat 1 32 xs b refl refl,
          word-cat 2 64 xs c refl refl,
          word-cat 3 96 xs d refl refl,
          word-cat 4 128 xs e refl refl,
          word-cat 5 160 xs f refl refl,
          word-cat 6 192 xs h refl refl,
          word-cat 7 224 xs k refl refl,
          l.set_bytes a,
          l.set_bytes b,
          l.set_bytes c,
          l.set_bytes d,
          l.set_bytes e,
          l.set_bytes f,
          l.set_bytes h,
          l.set_bytes k,
        )
        refl

  -- A proof is read back from the calldata that it was serialised to, for a serialisation that writes
  -- the eight coordinates in the order A.X, A.Y, B.X1, B.X0, B.Y1, B.Y0, C.X, C.Y.
  pub proof_from_calldata-marshal_solidity :
      (p : g.Proof) → proof_from_calldata g (g.marshal_solidity p) ≡ some p
  proof_from_calldata-marshal_solidity p =
      let (a, b, c, d, e, f, h, k, made, written) = l.coordinates p in
      ap (proof_from_calldata g) written ∙ proof_from_calldata-eight a b c d e f h k ∙ ap some made

-- ===== src/Pki/Placeholder.antt =====
-- `isPlaceholderPubKey` of resolver/internal/pki/owner.go.
use decentralized_dns.Base.{
  ℕ, zero, suc, Bytes, [], ◌∷◌, true, ◌≡◌, ◌⊎◌, inl, inr, ◌↔◌, refl, ap, ◌∙◌, ◌==◌, length, all_of,
  replicate, Bool-cases, arith,
}
use decentralized_dns.Pki.Owner.{is_placeholder_pub_key}

all_zero-replicate : (l : Bytes) → all_of (λ c. c == 0) l ≡ true → l ≡ replicate (length l) 0
all_zero-replicate [] h = refl
all_zero-replicate (b ∷ bs) h =
    let zero_head : b ≡ 0 = ground arith in let ih = all_zero-replicate bs (ground arith) in cc

replicate-all_zero : (n : ℕ) → all_of (λ c. c == 0) (replicate n 0) ≡ true
replicate-all_zero zero = refl
replicate-all_zero (suc n) = replicate-all_zero n

zeros : (n : ℕ) (l : Bytes) → l ≡ replicate n 0 → is_placeholder_pub_key l ≡ true
unfolding is_placeholder_pub_key
zeros zero [] h = refl
zeros zero (b ∷ bs) h = refl ∙ cc
zeros (suc n) [] h = refl
zeros (suc n) (b ∷ bs) h =
    let e : all_of (λ c. c == 0) (b ∷ bs) ≡ true =
      ap (all_of (λ c. c == 0)) h ∙ replicate-all_zero (suc n) in
    ground (arith, e)

-- The keys that stand for no key are exactly the all-zero ones, the empty one included, and the
-- uncompressed encoding 04 of the point (0, 0).
pub is_placeholder_pub_key_iff :
    (k : Bytes)
    → (is_placeholder_pub_key k ≡ true) ↔ ((k ≡ replicate (length k) 0) ⊎ (k ≡ 4 ∷ replicate 64 0))
unfolding is_placeholder_pub_key
is_placeholder_pub_key_iff [] = (λ h. inl refl, λ h. refl)
is_placeholder_pub_key_iff (b ∷ bs) = (
  λ h. elim (Bool-cases (all_of (λ c. c == 0) (b ∷ bs))) [
    | inl z ↦ inl (all_zero-replicate (b ∷ bs) z)
    | inr z ↦
        let first : b ≡ 4 = ground arith in
        let size : length bs ≡ 64 = ground arith in
        let rest = all_zero-replicate bs (ground arith) in
        inr (ap (λ x. x ∷ bs) first ∙ ap (λ l. 4 ∷ l) (rest ∙ ap (λ n. replicate n 0) size))
  ],
  λ h. elim h [
    | inl z ↦ zeros (length (b ∷ bs)) (b ∷ bs) z
    | inr z ↦ ap is_placeholder_pub_key z ∙ refl
  ],
)

-- ===== src/Pay/Binding.antt =====
-- What a voucher of resolver/internal/pay/pay.go binds, and who it is recovered to.
use decentralized_dns.Base.{
  ℕ, zero, suc, ◌+◌, ◌-◌, ◌*◌, ◌/◌, ◌%◌, ◌^◌, ◌≤◌, ◌<◌, Bytes, [], ◌∷◌, ◌++◌, false, some, ◌==◌,
  ==_iff, ltb, ◌≡◌, refl, sym, ap, ◌∙◌, length, take, drop, replicate, length-append, append_inj,
  take-append, drop-append, arith, Bool-cases, Option-cases, inl, inr,
}
use native.Mathlib.Nat.{pow-suc}
use decentralized_dns.Pki.Owner.{Secp, at_v, lower_v, raise_v}
use decentralized_dns.Pki.Verify.{signed-recovers}
use decentralized_dns.Zk.Pack.{value_of}
use decentralized_dns.Pay.Voucher.{
  VoucherCrypto, bytes_fuel, big_bytes, left_pad32, encoding, signer, digest, half_n, sign_voucher,
  recover_voucher,
}

value_of-snoc :
    (acc : ℕ) (xs : Bytes) (b : ℕ) → value_of acc (xs ++ (b ∷ [])) ≡ value_of acc xs * 256 + b
unfolding value_of
value_of-snoc acc [] b = refl
value_of-snoc acc (x ∷ xs) b = value_of-snoc (acc * 256 + x) xs b

bytes_fuel-zero : (fuel : ℕ) → bytes_fuel fuel 0 ≡ []
unfolding bytes_fuel
bytes_fuel-zero zero = refl
bytes_fuel-zero (suc fuel) = refl

bytes_fuel-step :
    (fuel n : ℕ)
    → (n == 0) ≡ false
    → bytes_fuel (suc fuel) n ≡ bytes_fuel fuel (n / 256) ++ ((n % 256) ∷ [])
unfolding bytes_fuel
bytes_fuel-step fuel n h = rw h refl

value_of-bytes_fuel : (fuel n : ℕ) → n ≤ fuel → value_of 0 (bytes_fuel fuel n) ≡ n
unfolding value_of
value_of-bytes_fuel zero n h = unfold bytes_fuel in omega arith
value_of-bytes_fuel (suc fuel) n h = elim (Bool-cases (n == 0)) [
  | inl z ↦
      let none_left : n ≡ 0 = ground arith in
      ap (λ k. value_of 0 (bytes_fuel (suc fuel) k)) none_left
      ∙ ap (value_of 0) (bytes_fuel-zero (suc fuel))
      ∙ sym none_left
  | inr more ↦
      ap (value_of 0) (bytes_fuel-step fuel n more)
      ∙ value_of-snoc 0 (bytes_fuel fuel (n / 256)) (n % 256)
      ∙ omega (arith, value_of-bytes_fuel fuel (n / 256) (ground arith))
]

length-bytes_fuel : (fuel k n : ℕ) → n < 256 ^ k → length (bytes_fuel fuel n) ≤ k
unfolding bytes_fuel
length-bytes_fuel zero k n h = omega arith
length-bytes_fuel (suc fuel) zero n h = ground arith
length-bytes_fuel (suc fuel) (suc k) n h = ground (
  arith,
  length-append (bytes_fuel fuel (n / 256)) ((n % 256) ∷ []),
  length-bytes_fuel fuel k (n / 256) (omega (arith, pow-suc 256 k)),
)

value_of-zeros : (k : ℕ) (xs : Bytes) → value_of 0 (replicate k 0 ++ xs) ≡ value_of 0 xs
unfolding value_of
value_of-zeros zero xs = refl
value_of-zeros (suc k) xs = value_of-zeros k xs

length-replicate : (k : ℕ) → length (replicate {A = ℕ} k 0) ≡ k
length-replicate zero = refl
length-replicate (suc k) = ap suc (length-replicate k)

length-left_pad32 : (b : Bytes) → length b ≤ 32 → length (left_pad32 b) ≡ 32
length-left_pad32 b h =
    omega (arith, length-append (replicate (32 - length b) 0) b, length-replicate (32 - length b))

value_of-left_pad32 : (n : ℕ) → value_of 0 (left_pad32 (big_bytes n)) ≡ n
value_of-left_pad32 n =
    value_of-zeros (32 - length (big_bytes n)) (big_bytes n)
    ∙ unfold big_bytes in value_of-bytes_fuel n n (omega arith)

-- The bytes that a voucher's digest hashes determine the contract, the channel and the cumulative
-- amount, for addresses of 20 bytes and channel ids of 32.
pub encoding_inj :
    (contract contract' id id' : Bytes) (amount amount' : ℕ)
    → length contract ≡ 20
    → length contract' ≡ 20
    → length id ≡ 32
    → length id' ≡ 32
    → encoding contract id amount ≡ encoding contract' id' amount'
    → (contract ≡ contract') × (id ≡ id') × (amount ≡ amount')
unfolding encoding
encoding_inj contract contract' id id' amount amount' h h' k k' e =
    let (heads, rest) =
      append_inj (left_pad32 contract) (left_pad32 contract') (id ++ left_pad32 (big_bytes amount))
        (id' ++ left_pad32 (big_bytes amount'))
        (length-left_pad32 contract (omega arith) ∙ sym (length-left_pad32 contract' (omega arith)))
        e in
    let (ids, tails) = append_inj id id' _ _ (k ∙ sym k') rest in
    let (_, contracts) =
      append_inj (replicate (32 - length contract) 0) (replicate (32 - length contract') 0) contract
        contract' (ap (λ n. length (replicate {A = ℕ} (32 - n) 0)) (h ∙ sym h')) heads in
    (
      contracts,
      ids,
      sym (value_of-left_pad32 amount) ∙ ap (value_of 0) tails ∙ value_of-left_pad32 amount',
    )

pub length-encoding :
    (contract id : Bytes) (amount : ℕ)
    → length contract ≡ 20
    → length id ≡ 32
    → amount < 2 ^ 256
    → length (encoding contract id amount) ≡ 96
unfolding encoding
length-encoding contract id amount h k small = omega (
  arith,
  length-append (left_pad32 contract) (id ++ left_pad32 (big_bytes amount)),
  length-append id (left_pad32 (big_bytes amount)),
  length-left_pad32 contract (omega arith),
  length-left_pad32 (big_bytes amount)
      (unfold big_bytes in length-bytes_fuel amount 32 amount (omega arith)),
)

-- a window that lies in the first of two parts
window-append :
    (m n : ℕ) (xs ys : Bytes) → m + n ≤ length xs → take n (drop m (xs ++ ys)) ≡ take n (drop m xs)
window-append zero zero xs ys h = refl
window-append zero (suc n) [] ys h = absurd (omega arith)
window-append zero (suc n) (x ∷ xs) ys h = ap (◌∷◌ x) (window-append zero n xs ys (omega arith))
window-append (suc m) n [] ys h = absurd (omega arith)
window-append (suc m) n (x ∷ xs) ys h = window-append m n xs ys (omega arith)

at_v-window :
    (rs : Bytes) (v : ℕ)
    → length rs ≡ 64
    → take 32 (drop 32 (at_v raise_v (rs ++ (v ∷ [])))) ≡ take 32 (drop 32 (rs ++ (v ∷ [])))
at_v-window rs v h =
    let raised : at_v raise_v (rs ++ (v ∷ [])) ≡ rs ++ (raise_v v ∷ []) =
      rw (take-append rs (v ∷ []) 64 (sym h), drop-append rs (v ∷ []) 64 (sym h)) refl in
    ap (λ x. take 32 (drop 32 x)) raised
    ∙ window-append 32 32 rs (raise_v v ∷ []) (omega arith)
    ∙ sym (window-append 32 32 rs (v ∷ []) (omega arith))

not_above : (bound n : ℕ) → n ≤ bound → ltb bound n ≡ false
not_above bound n h = ground arith

module _ (c : Secp) (v : VoucherCrypto c) where
  recover_voucher-eq :
      (contract id : Bytes) (amount : ℕ) (sig : Bytes) (pk : c.PublicKey)
      → length sig ≡ 65
      → value_of 0 (take 32 (drop 32 sig)) ≤ half_n c v
      → c.sig_to_pub (digest c v contract id amount) (at_v lower_v sig) ≡ some pk
      → recover_voucher c v contract id amount sig ≡ signer (c.pubkey_to_address pk)
  unfolding recover_voucher
  recover_voucher-eq contract id amount sig pk h low e =
      let sized = (==_iff (length sig) 65).1 h in
      let canonical : ltb (half_n c v) (value_of 0 (take 32 (drop 32 sig))) ≡ false =
        not_above _ _ low in
      rw (sized, canonical, e) refl

  -- The voucher that a client signs is recovered to the client's address.
  pub recover_voucher-sign_voucher :
      (key : c.PrivateKey) (contract id : Bytes) (amount : ℕ) (sig : Bytes)
      → sign_voucher c v key contract id amount ≡ some sig
      → recover_voucher c v contract id amount sig ≡ signer (c.pubkey_to_address (c.public_key key))
  unfolding sign_voucher
  recover_voucher-sign_voucher key contract id amount sig h =
      elim (Option-cases (c.sign (digest c v contract id amount) key)) [
        | inl e ↦ absurd (ground (arith, e))
        | inr (raw, e) ↦
            let d = digest c v contract id amount in
            let raised : at_v raise_v raw ≡ sig = ground (arith, e) in
            let (size, back) = signed-recovers c d raw key e in
            let (rs, w, n, _, shape) = c.sign_format d key raw e in
            let low : value_of 0 (take 32 (drop 32 (at_v raise_v raw)))
                ≡ value_of 0 (take 32 (drop 32 raw)) =
              ap (λ x. value_of 0 (take 32 (drop 32 (at_v raise_v x)))) shape
              ∙ ap (value_of 0) (at_v-window rs w n)
              ∙ ap (λ x. value_of 0 (take 32 (drop 32 x))) (sym shape) in
            ap (recover_voucher c v contract id amount) (sym raised)
            ∙ recover_voucher-eq contract id amount (at_v raise_v raw) (c.public_key key) size
                (omega (arith, low, v.sign_low_s d key raw e)) back
      ]

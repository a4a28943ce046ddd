-- ===== src/Pay/Voucher.antt =====
-- resolver/internal/pay/pay.go: the digest of a voucher, its signature and its recovery.
use decentralized_dns.Base.{
  ℕ, zero, suc, ◌-◌, ◌/◌, ◌%◌, ◌≤◌, Bytes, [], ◌∷◌, ◌++◌, not, ltb, ◌==◌, Option, none, some, ◌≡◌,
  if◌then◌else◌, length, take, drop, replicate,
}
use decentralized_dns.Pki.Owner.{Secp, at_v, lower_v, raise_v}
use decentralized_dns.Zk.Pack.{value_of}

-- go-ethereum's crypto.Keccak256, the order of secp256k1, and the canonical form of what
-- crypto.Sign returns
pub record VoucherCrypto (c : Secp) : Type 0 where
  pub keccak256 : Bytes → Bytes
  pub curve_order : ℕ
  -- "The produced signature is in the canonical lower-S form."
  pub sign_low_s :
      (d : Bytes) (k : c.PrivateKey) (s : Bytes)
      → c.sign d k ≡ some s
      → value_of 0 (take 32 (drop 32 s)) ≤ curve_order / 2

-- big.Int.Bytes: big-endian, without leading zeros. A number has at most as many digits as its value.
unfoldable pub bytes_fuel : ℕ → ℕ → Bytes
bytes_fuel zero n = []
bytes_fuel (suc fuel) n =
    let more = bytes_fuel fuel (n / 256) ++ ((n % 256) ∷ []) in if n == 0 then [] else more

unfoldable pub big_bytes : ℕ → Bytes
unfolding bytes_fuel
big_bytes n = bytes_fuel n n

-- common.LeftPadBytes(b, 32): a text that is longer stays as it is.
abbrev pub left_pad32 : Bytes → Bytes
left_pad32 b = replicate (32 - length b) 0 ++ b

-- what innerHash hashes
unfoldable pub encoding : Bytes → Bytes → ℕ → Bytes
unfolding big_bytes
encoding contract id cumulative = left_pad32 contract ++ (id ++ left_pad32 (big_bytes cumulative))

pub data VoucherError : Type 0 where
  wrong_length high_s not_recovered : VoucherError

pub data Recovered : Type 0 where
  signer : Bytes → Recovered
  failed : VoucherError → Recovered

module _ (c : Secp) (v : VoucherCrypto c) where
  unfoldable pub inner_hash : Bytes → Bytes → ℕ → Bytes
  unfolding encoding
  inner_hash contract id cumulative = v.keccak256 (encoding contract id cumulative)

  unfoldable pub digest : Bytes → Bytes → ℕ → Bytes
  unfolding inner_hash
  digest contract id cumulative = c.text_hash (inner_hash contract id cumulative)

  abbrev pub half_n : ℕ
  half_n = v.curve_order / 2

  -- SignVoucher; `none` is an error of crypto.Sign.
  unfoldable pub sign_voucher : c.PrivateKey → Bytes → Bytes → ℕ → Option Bytes
  unfolding digest
  sign_voucher key contract id cumulative = elim (c.sign (digest contract id cumulative) key) [
    | none ↦ none
    | some sig ↦ some (at_v raise_v sig)
  ]

  unfoldable pub recover_voucher : Bytes → Bytes → ℕ → Bytes → Recovered
  unfolding digest
  recover_voucher contract id cumulative sig =
      if not (length sig == 65)
      then failed wrong_length
      else if ltb half_n (value_of 0 (take 32 (drop 32 sig)))
      then failed high_s
      else elim (c.sig_to_pub (digest contract id cumulative) (at_v lower_v sig)) [
        | none ↦ failed not_recovered
        | some pub_key ↦ signer (c.pubkey_to_address pub_key)
      ]

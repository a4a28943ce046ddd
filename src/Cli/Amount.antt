-- ===== src/Cli/Amount.antt =====
-- mustEth and mustChannelID of resolver/cmd/ddns/channels.go.
use decentralized_dns.Base.{
  ℕ, ◌+◌, ◌-◌, ◌*◌, ◌/◌, ◌^◌, Bytes, Bytes-discrete, [], ◌∷◌, Bool, true, false, not, ◌&&◌, ◌==◌,
  Option, none, some, ite, if◌then◌else◌, length, all_of, ◌++◌,
}
use decentralized_dns.Base.Text.{Unicode, trim_space, is_digit, cut}

abbrev pub is_digits : Bytes → Bool
is_digits s = not (ite (Bytes-discrete s []) true false) && all_of is_digit s

-- the value of a text of digits, after what is read
unfoldable pub decimal_value : ℕ → Bytes → ℕ
decimal_value acc [] = acc
decimal_value acc (c ∷ cs) = decimal_value (acc * 10 + (c - b'0')) cs

-- decimalEth and Rat.SetString: a text ^\d+(\.\d+)?$ as the number of its digits, over ten to the
-- power of how many of them stand after the point.
unfoldable pub decimal_parts : Bytes → Option (ℕ × ℕ)
unfolding decimal_value
decimal_parts s = elim (cut b'.' s) [
  | none ↦ if is_digits s then some (decimal_value 0 s, 0) else none
  | some (whole, fraction) ↦
      if is_digits whole && is_digits fraction
      then some (decimal_value 0 (whole ++ fraction), length fraction)
      else none
]

abbrev pub wei_per_eth : ℕ
wei_per_eth = 10 ^ 18

-- mustEth; `none` is an exit.
unfoldable pub must_eth : Unicode → Bytes → Option ℕ
must_eth u text = elim (decimal_parts (trim_space u text)) [
  | none ↦ none
  | some (digits, places) ↦
      let wei = digits * wei_per_eth / 10 ^ places in if wei == 0 then none else some wei
]

-- mustChannelID on what hexutil.Decode gives; `none` is an exit.
unfoldable pub must_channel_id : (Bytes → Option Bytes) → Bytes → Option Bytes
must_channel_id hex_decode s = elim (hex_decode s) [
  | none ↦ none
  | some b ↦ if length b == 32 then some b else none
]

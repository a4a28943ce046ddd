-- ===== src/Query/Canonical.antt =====
-- Canonical pairs of resolver/internal/query/query.go.
use decentralized_dns.Base.{
  ℕ, Bytes, Bytes-discrete, List, [], ◌∷◌, Bool, true, false, not, ◌||◌, Option, none, some, ltb,
  ◌==◌, if_neg, codes, all_of, ◌≡◌, ◌≢◌, ◌⊎◌, refl, sym, subst, map, arith, inl, inr,
}
use decentralized_dns.Base.Ints.{ℤ, pos, negsuc}
use decentralized_dns.Base.Text.{
  Unicode, trim_space, to_lower, to_upper, atoi, itoa, is_digit, lower_byte,
}
use decentralized_dns.Base.TextLaws.{
  UnicodeLaws, is_graphic, trim_space-graphic, trim_space_idem, lacks,
}
use decentralized_dns.Base.Decimal.{atoi-itoa, all_digits-itoa}
use decentralized_dns.Query.Grammar.{key_ok, value_ok, is_key_byte, is_value_byte}
use decentralized_dns.Query.Selector.{
  ok, one_of, known_transports, known_services, canon_port, canon_value,
}

pub all_of-imp :
    (p q : ℕ → Bool)
    → ((c : ℕ) → p c ≡ true → q c ≡ true)
    → (s : Bytes) → all_of p s ≡ true
    → all_of q s ≡ true
all_of-imp p q h [] a = refl
all_of-imp p q h (c ∷ cs) a = ground (arith, h c, all_of-imp p q h cs)

key_bytes : (k : Bytes) → key_ok k ≡ true → all_of is_key_byte k ≡ true
unfolding key_ok
key_bytes k h = ground arith

pub trim-key : (u : Unicode) (k : Bytes) → key_ok k ≡ true → trim_space u k ≡ k
trim-key u k h =
    trim_space-graphic u k
      (all_of-imp is_key_byte is_graphic (λ c e. ground arith) k (key_bytes k h))

map-lower : (s : Bytes) → all_of is_key_byte s ≡ true → map lower_byte s ≡ s
unfolding lower_byte
map-lower [] h = refl
map-lower (c ∷ cs) h = ground (arith, map-lower cs)

pub lower-key : (u : Unicode) (k : Bytes) → key_ok k ≡ true → to_lower u k ≡ k
unfolding to_lower
lower-key u k h = ground (
  arith,
  map-lower k (key_bytes k h),
  all_of-imp is_key_byte (λ c. ltb c 128) (λ c e. ground arith) k (key_bytes k h),
)

-- A canonical key has no '=' and no '&'.
pub key-lacks-eq : (k : Bytes) → key_ok k ≡ true → lacks b'=' k ≡ true
key-lacks-eq k h = all_of-imp is_key_byte _ (λ c e. ground arith) k (key_bytes k h)

pub key-lacks-amp : (k : Bytes) → key_ok k ≡ true → lacks b'&' k ≡ true
key-lacks-amp k h = all_of-imp is_key_byte _ (λ c e. ground arith) k (key_bytes k h)

-- What a canonical value has: it is its own canonical form, and has no '&'.
abbrev pub IsFixed : Unicode → Bytes → Bytes → Type 0
IsFixed u k v = (canon_value u k (trim_space u v) ≡ ok v) × (lacks b'&' v ≡ true)

port-IsFixed :
    (u : Unicode) (o : Option ℤ) (v : Bytes) → canon_port o ≡ ok v → IsFixed u (codes "port") v
unfolding canon_port
port-IsFixed u none v h = cc
port-IsFixed u (some (negsuc n)) v h = cc
port-IsFixed u (some (pos n)) v h =
    let low : (ltb n 1 || ltb 65535 n) ≡ false = ground arith in
    let same : itoa n ≡ v = ground arith in
    let digits = all_digits-itoa n in
    let trimmed : trim_space u (itoa n) ≡ itoa n =
      trim_space-graphic u (itoa n)
        (all_of-imp is_digit is_graphic (λ c e. ground arith) (itoa n) digits) in
    let reread : atoi (itoa n) ≡ some (pos n) = atoi-itoa n (ground arith) in
    subst (IsFixed u (codes "port")) same (
      rw trimmed (unfold canon_value in ground (arith, reread)),
      all_of-imp is_digit (λ c. not (c == b'&')) (λ c e. ground arith) (itoa n) digits,
    )

one_of-cons :
    (w : Bytes) (ws : List Bytes) (s : Bytes)
    → one_of (w ∷ ws) s ≡ true
    → (w ≡ s) ⊎ (one_of ws s ≡ true)
unfolding one_of
one_of-cons w ws s h = elim (Bytes-discrete s w) [ yes p ↦ inl (sym p) | no p ↦ inr (ground arith) ]

transport-IsFixed :
    (u : Unicode) (v : Bytes) → one_of known_transports v ≡ true → IsFixed u (codes "transport") v
transport-IsFixed u v h = elim (one_of-cons _ _ v h) [
  | inl e ↦ subst (IsFixed u (codes "transport")) e (words.0)
  | inr h1 ↦ elim (one_of-cons _ _ v h1) [
    | inl e ↦ subst (IsFixed u (codes "transport")) e (words.1)
    | inr h2 ↦ elim (one_of-cons _ _ v h2) [
      | inl e ↦ subst (IsFixed u (codes "transport")) e (words.2)
      | inr h3 ↦ absurd (unfold one_of in cc)
    ]
  ]
]
  where
    words :
        IsFixed u (codes "transport") (codes "UDP")
        × IsFixed u (codes "transport") (codes "TCP")
        × IsFixed u (codes "transport") (codes "QUIC")
    words =
        unfold canon_value trim_space to_upper Bytes-discrete in
        ((refl, refl), (refl, refl), (refl, refl))

service-IsFixed :
    (u : Unicode) (v : Bytes) → one_of known_services v ≡ true → IsFixed u (codes "service") v
service-IsFixed u v h = elim (one_of-cons _ _ v h) [
  | inl e ↦ subst (IsFixed u (codes "service")) e (words.0)
  | inr h1 ↦ elim (one_of-cons _ _ v h1) [
    | inl e ↦ subst (IsFixed u (codes "service")) e (words.1)
    | inr h2 ↦ absurd (unfold one_of in cc)
  ]
]
  where
    words : IsFixed u (codes "service") (codes "HTTP") × IsFixed u (codes "service") (codes "SMTP")
    words = unfold canon_value trim_space to_upper Bytes-discrete in ((refl, refl), (refl, refl))

value_ok-IsFixed :
    (u : Unicode) (k v : Bytes)
    → k ≢ codes "port"
    → k ≢ codes "transport"
    → k ≢ codes "service"
    → value_ok u v ≡ true
    → trim_space u v ≡ v
    → IsFixed u k v
value_ok-IsFixed u k v p t s h e = (
  rw e (
      unfold canon_value in
      rw (
        if_neg (Bytes-discrete k _) p,
        if_neg (Bytes-discrete k _) t,
        if_neg (Bytes-discrete k _) s,
        h,
      )),
  all_of-imp is_value_byte (λ c. not (c == b'&')) (λ c e. ground arith) v
      (unfold value_ok in ground arith),
)

-- A successful `canon_value` on a trimmed value is a fixed value.
pub canon_value-IsFixed :
    (u : Unicode)
    → UnicodeLaws u
    → (k v w : Bytes) → canon_value u k (trim_space u v) ≡ ok w
    → IsFixed u k w
unfolding canon_value
canon_value-IsFixed u laws k v w h = elim (Bytes-discrete k (codes "port")) [
  | yes p ↦ subst (λ j. IsFixed u j w) (sym p) (port-IsFixed u (atoi t) w (ground arith))
  | no p ↦ elim (Bytes-discrete k (codes "transport")) [
    | yes q ↦ subst (λ j. IsFixed u j w) (sym q) (transport-IsFixed u w (ground arith))
    | no q ↦ elim (Bytes-discrete k (codes "service")) [
      | yes r ↦ subst (λ j. IsFixed u j w) (sym r) (service-IsFixed u w (ground arith))
      | no r ↦
          let same : t ≡ w = ground arith in
          subst (IsFixed u k) same
            (value_ok-IsFixed u k t p q r (ground arith) (trim_space_idem u laws v))
    ]
  ]
]
  where
    t : Bytes
    t = trim_space u v

-- A canonical key starts with a visible byte.
pub key-graphic :
    (k : Bytes) → key_ok k ≡ true → (c : ℕ) × (cs : Bytes) × (k ≡ c ∷ cs) × (is_graphic c ≡ true)
unfolding key_ok
key-graphic [] h = absurd (ground arith)
key-graphic (c ∷ cs) h = (c, cs, refl, ground arith)

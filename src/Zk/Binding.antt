-- ===== src/Zk/Binding.antt =====
-- The field elements of a message (PackMessage of resolver/internal/zk/zk.go) against the message.
use decentralized_dns.Base.{
  ℕ, zero, suc, ◌+◌, ◌-◌, ◌*◌, ◌≤◌, ◌<◌, Bytes, List, [], ◌∷◌, Bool, true, false, none, some, ltb,
  if◌then◌else◌, length, take, drop, ◌≡◌, refl, sym, ap, ◌∙◌, arith,
}
use decentralized_dns.Zk.Pack.{max_chunks, max_payload, value_of, pack_chunks, pack_message}

abbrev pub AreBytes : Bytes → Type 0
AreBytes [] = Unit {0}
AreBytes (b ∷ bs) = (b < 256) × AreBytes bs

value_of_inj :
    (xs ys : Bytes) (a b : ℕ)
    → length xs ≡ length ys
    → AreBytes xs
    → AreBytes ys
    → value_of a xs ≡ value_of b ys
    → (a ≡ b) × (xs ≡ ys)
unfolding value_of
value_of_inj [] [] a b n hx hy e = (e, refl)
value_of_inj [] (y ∷ ys) a b n hx hy e = absurd (omega arith)
value_of_inj (x ∷ xs) [] a b n hx hy e = absurd (omega arith)
value_of_inj (x ∷ xs) (y ∷ ys) a b n (x8, hx) (y8, hy) e =
    let (heads, tails) = value_of_inj xs ys (a * 256 + x) (b * 256 + y) (omega arith) hx hy e in
    let first : x ≡ y = omega arith in (omega arith, cc)

AreBytes-take : (n : ℕ) (xs : Bytes) → AreBytes xs → AreBytes (take n xs)
AreBytes-take zero xs h = tt
AreBytes-take (suc n) [] h = tt
AreBytes-take (suc n) (x ∷ xs) (x8, h) = (x8, AreBytes-take n xs h)

AreBytes-drop : (n : ℕ) (xs : Bytes) → AreBytes xs → AreBytes (drop n xs)
AreBytes-drop zero xs h = h
AreBytes-drop (suc n) [] h = tt
AreBytes-drop (suc n) (x ∷ xs) (x8, h) = AreBytes-drop n xs h

length-take_same :
    (n : ℕ) (xs ys : Bytes) → length xs ≡ length ys → length (take n xs) ≡ length (take n ys)
length-take_same zero xs ys h = refl
length-take_same (suc n) [] [] h = refl
length-take_same (suc n) [] (y ∷ ys) h = absurd (omega arith)
length-take_same (suc n) (x ∷ xs) [] h = absurd (omega arith)
length-take_same (suc n) (x ∷ xs) (y ∷ ys) h = ap suc (length-take_same n xs ys (omega arith))

length-drop : (n : ℕ) (xs : Bytes) → length (drop n xs) ≡ length xs - n
length-drop zero xs = omega arith
length-drop (suc n) [] = omega arith
length-drop (suc n) (x ∷ xs) = omega (arith, length-drop n xs)

take-drop_inj : (n : ℕ) (xs ys : Bytes) → take n xs ≡ take n ys → drop n xs ≡ drop n ys → xs ≡ ys
take-drop_inj zero xs ys h k = k
take-drop_inj (suc n) [] [] h k = refl
take-drop_inj (suc n) [] (y ∷ ys) h k = cc
take-drop_inj (suc n) (x ∷ xs) [] h k = cc
take-drop_inj (suc n) (x ∷ xs) (y ∷ ys) h k =
    let first : x ≡ y = cc in let rest = take-drop_inj n xs ys (cc) k in cc

nil_of_length : (xs ys : Bytes) → length xs ≤ 0 → length ys ≤ 0 → xs ≡ ys
nil_of_length [] [] h k = refl
nil_of_length [] (y ∷ ys) h k = absurd (omega arith)
nil_of_length (x ∷ xs) ys h k = absurd (omega arith)

pack_chunks_inj :
    (n : ℕ) (xs ys : Bytes)
    → length xs ≡ length ys
    → length xs ≤ n * 31
    → AreBytes xs
    → AreBytes ys
    → pack_chunks n xs ≡ pack_chunks n ys
    → xs ≡ ys
unfolding pack_chunks
pack_chunks_inj zero xs ys same bound hx hy e = nil_of_length xs ys (omega arith) (omega arith)
pack_chunks_inj (suc n) xs ys same bound hx hy e =
    let firsts : value_of 0 (take 31 xs) ≡ value_of 0 (take 31 ys) = cc in
    let rests : pack_chunks n (drop 31 xs) ≡ pack_chunks n (drop 31 ys) = cc in
    let (_, taken) =
      value_of_inj (take 31 xs) (take 31 ys) 0 0 (length-take_same 31 xs ys same)
        (AreBytes-take 31 xs hx) (AreBytes-take 31 ys hy) firsts in
    let dropped =
      pack_chunks_inj n (drop 31 xs) (drop 31 ys)
        (length-drop 31 xs ∙ ap (λ k. k - 31) same ∙ sym (length-drop 31 ys))
        (omega (arith, length-drop 31 xs)) (AreBytes-drop 31 xs hx) (AreBytes-drop 31 ys hy)
        rests in
    take-drop_inj 31 xs ys taken dropped

under_guard :
    (b : Bool) (x y : List ℕ) → (if b then none else some x) ≡ some y → (b ≡ false) × (x ≡ y)
under_guard true x y h = cc
under_guard false x y h = (refl, cc)

small : (n : ℕ) → ltb max_payload n ≡ false → n ≤ 496
small n h = ground arith

pack_message-fits :
    (xs : Bytes) (l : List ℕ)
    → pack_message xs ≡ some l
    → (length xs ≤ 496) × (length xs ∷ pack_chunks max_chunks xs ≡ l)
unfolding pack_message
pack_message-fits xs l h =
    let (within, shape) =
      under_guard (ltb max_payload (length xs)) (length xs ∷ pack_chunks max_chunks xs) l h in
    (small (length xs) within, shape)

-- Two byte strings that `PackMessage` maps to the same field elements are the same, although the last
-- chunk is zero-padded.
pub pack_message_inj :
    (xs ys : Bytes) (l : List ℕ)
    → AreBytes xs
    → AreBytes ys
    → pack_message xs ≡ some l
    → pack_message ys ≡ some l
    → xs ≡ ys
pack_message_inj xs ys l hx hy e f =
    let (bound, shape) = pack_message-fits xs l e in
    let (_, shape') = pack_message-fits ys l f in
    let both = shape ∙ sym shape' in
    let lengths : length xs ≡ length ys = cc both in
    let chunks : pack_chunks max_chunks xs ≡ pack_chunks max_chunks ys = cc both in
    pack_chunks_inj max_chunks xs ys lengths (omega arith) hx hy chunks

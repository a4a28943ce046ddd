-- ===== src/Base/Wire.antt =====
-- Length-prefixed texts (`writeStr` of resolver/internal/pki/owner.go and resource.go).
use Prim.Native.Nat.{ℕ, ◌^◌, ◌<◌}
use mathlib.Core.Path.{◌≡◌, refl, sym, ◌∙◌}
use mathlib.Core.List.{◌++◌, append_assoc}
use decentralized_dns.Base.Lists.{Bytes, length, append_inj}
use decentralized_dns.Base.Ints.{be16, be32, be64, be16_inj, be32_inj, be64_inj}

-- writeStr of owner.go: uint16(len(s)), then s
abbrev pub str16 : Bytes → Bytes
str16 s = be16 (length s) ++ s

-- writeStr of resource.go: uint32(len(s)), then s
abbrev pub str32 : Bytes → Bytes
str32 s = be32 (length s) ++ s

pub str16-append_inj :
    (s t u v : Bytes)
    → length s < 2 ^ 16
    → length t < 2 ^ 16
    → str16 s ++ u ≡ str16 t ++ v
    → (s ≡ t) × (u ≡ v)
str16-append_inj s t u v hs ht e =
    let e' = sym (append_assoc (be16 (length s)) s u) ∙ e ∙ append_assoc (be16 (length t)) t v in
    let (heads, tails) = append_inj (be16 (length s)) (be16 (length t)) (s ++ u) (t ++ v) refl e' in
    append_inj s t u v (be16_inj (length s) (length t) hs ht heads) tails

pub str32-append_inj :
    (s t u v : Bytes)
    → length s < 2 ^ 32
    → length t < 2 ^ 32
    → str32 s ++ u ≡ str32 t ++ v
    → (s ≡ t) × (u ≡ v)
str32-append_inj s t u v hs ht e =
    let e' = sym (append_assoc (be32 (length s)) s u) ∙ e ∙ append_assoc (be32 (length t)) t v in
    let (heads, tails) = append_inj (be32 (length s)) (be32 (length t)) (s ++ u) (t ++ v) refl e' in
    append_inj s t u v (be32_inj (length s) (length t) hs ht heads) tails

pub be16-append_inj :
    (x y : ℕ) (u v : Bytes)
    → x < 2 ^ 16
    → y < 2 ^ 16
    → be16 x ++ u ≡ be16 y ++ v
    → (x ≡ y) × (u ≡ v)
be16-append_inj x y u v hx hy e =
    let r = append_inj (be16 x) (be16 y) u v refl e in (be16_inj x y hx hy r.0, r.1)

pub be32-append_inj :
    (x y : ℕ) (u v : Bytes)
    → x < 2 ^ 32
    → y < 2 ^ 32
    → be32 x ++ u ≡ be32 y ++ v
    → (x ≡ y) × (u ≡ v)
be32-append_inj x y u v hx hy e =
    let r = append_inj (be32 x) (be32 y) u v refl e in (be32_inj x y hx hy r.0, r.1)

pub be64-append_inj :
    (x y : ℕ) (u v : Bytes)
    → x < 2 ^ 64
    → y < 2 ^ 64
    → be64 x ++ u ≡ be64 y ++ v
    → (x ≡ y) × (u ≡ v)
be64-append_inj x y u v hx hy e =
    let r = append_inj (be64 x) (be64 y) u v refl e in (be64_inj x y hx hy r.0, r.1)

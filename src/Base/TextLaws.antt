-- ===== src/Base/TextLaws.antt =====
-- Laws of the text functions: trimming, splitting and cutting.
use decentralized_dns.Base.Tests.{ltb, ◌==◌, Bool-cases}
use decentralized_dns.Base.Lists.{Bytes, all_of}
use decentralized_dns.Base.Text.{
  Unicode, is_ascii, is_space, trim_left, trim_right, keep_unless_space, trim_space, split, join,
  cut,
}
use Prim.Native.Nat.{ℕ, ◌<◌}
use mathlib.Core.Bool.{Bool, true, false, not, ◌&&◌}
use mathlib.Core.Option.{none, some}
use mathlib.Core.List.{List, [], ◌∷◌, ◌++◌}
use mathlib.Core.Logic.{◌≢◌, inl, inr}
use mathlib.Core.Path.{◌≡◌, refl, ap, ◌∙◌}
use native.Mathlib.Omega.{arith}

-- What is documented of strings.TrimSpace on every text: it is idempotent, and it keeps a text that
-- starts with an ASCII byte other than white space from becoming empty.
pub record UnicodeLaws (u : Unicode) : Type 0 where
  pub trim_idem : (s : Bytes) → is_ascii s ≡ false → trim_space u (u.trim_space s) ≡ u.trim_space s
  pub trim_nonempty :
      (c : ℕ) (cs : Bytes) → (ltb c 128 && not (is_space c)) ≡ true → u.trim_space (c ∷ cs) ≢ []

-- a visible ASCII byte
abbrev pub is_graphic : ℕ → Bool
is_graphic c = ltb c 128 && not (is_space c)

all_of-imp :
    (p q : ℕ → Bool)
    → ((c : ℕ) → p c ≡ true → q c ≡ true)
    → (s : Bytes) → all_of p s ≡ true
    → all_of q s ≡ true
all_of-imp p q h [] a = refl
all_of-imp p q h (c ∷ cs) a = ground (arith, h c, all_of-imp p q h cs)

trim_right-graphic : (s : Bytes) → all_of is_graphic s ≡ true → trim_right s ≡ s
unfolding trim_right
trim_right-graphic [] h = refl
trim_right-graphic (c ∷ []) h = ground arith
trim_right-graphic (c ∷ d ∷ ds) h =
    ap (keep_unless_space c) (trim_right-graphic (d ∷ ds) (ground arith))

-- Trimming leaves a text of visible ASCII bytes as it is.
pub trim_space-graphic : (u : Unicode) (s : Bytes) → all_of is_graphic s ≡ true → trim_space u s ≡ s
unfolding trim_space trim_left
trim_space-graphic u [] h = refl
trim_space-graphic u (c ∷ cs) h = ground (
  arith,
  all_of-imp is_graphic (λ d. ltb d 128) (λ d e. ground arith) (c ∷ cs) h,
  trim_right-graphic (c ∷ cs) h,
)

trim_right_idem : (s : Bytes) → trim_right (trim_right s) ≡ trim_right s
unfolding trim_right
trim_right_idem [] = refl
trim_right_idem (c ∷ cs) = idem_step c (trim_right cs) (trim_right_idem cs)
  where
    idem_step :
        (b : ℕ) (r : Bytes)
        → trim_right r ≡ r
        → trim_right (keep_unless_space b r) ≡ keep_unless_space b r
    idem_step b [] h = ground arith
    idem_step b (d ∷ ds) h = ap (keep_unless_space b) h

ascii-trim_right : (s : Bytes) → is_ascii s ≡ true → is_ascii (trim_right s) ≡ true
unfolding trim_right
ascii-trim_right [] h = refl
ascii-trim_right (c ∷ cs) h =
    step c (trim_right cs) (ground arith) (ascii-trim_right cs (ground arith))
  where
    step :
        (b : ℕ) (r : Bytes) → b < 128 → is_ascii r ≡ true → is_ascii (keep_unless_space b r) ≡ true
    step b [] h e = ground arith
    step b (d ∷ ds) h e = ground arith

-- a text that is empty or starts with a byte other than white space
abbrev no_lead : Bytes → Bool
no_lead [] = true
no_lead (c ∷ cs) = not (is_space c)

no_lead-trim_left : (s : Bytes) → no_lead (trim_left s) ≡ true
unfolding trim_left
no_lead-trim_left [] = refl
no_lead-trim_left (c ∷ cs) = ground (arith, no_lead-trim_left cs)

no_lead-trim_right : (s : Bytes) → no_lead s ≡ true → no_lead (trim_right s) ≡ true
unfolding trim_right
no_lead-trim_right [] h = refl
no_lead-trim_right (c ∷ cs) h = step c (trim_right cs) h
  where
    step : (b : ℕ) (r : Bytes) → not (is_space b) ≡ true → no_lead (keep_unless_space b r) ≡ true
    step b [] e = ground arith
    step b (d ∷ ds) e = e

trim_left-no_lead : (s : Bytes) → no_lead s ≡ true → trim_left s ≡ s
unfolding trim_left
trim_left-no_lead [] h = refl
trim_left-no_lead (c ∷ cs) h = ground arith

ascii-trim_left : (s : Bytes) → is_ascii s ≡ true → is_ascii (trim_left s) ≡ true
unfolding trim_left
ascii-trim_left [] h = refl
ascii-trim_left (c ∷ cs) h = ground (arith, ascii-trim_left cs)

-- Trimming twice is trimming once.
pub trim_space_idem :
    (u : Unicode) → UnicodeLaws u → (s : Bytes) → trim_space u (trim_space u s) ≡ trim_space u s
unfolding trim_space
trim_space_idem u laws s = elim (Bool-cases (is_ascii s)) [
  | inl a ↦
      let t = trim_left s in
      let r = trim_right t in
      ground (
        arith,
        ascii-trim_right t (ascii-trim_left s a),
        trim_left-no_lead r (no_lead-trim_right t (no_lead-trim_left s)),
        trim_right_idem t,
      )
  | inr n ↦ ground (arith, laws.trim_idem s n)
]

-- A text that starts with a visible ASCII byte does not trim to the empty text.
pub trim_space-ne-nil :
    (u : Unicode)
    → UnicodeLaws u
    → (c : ℕ) (cs : Bytes) → is_graphic c ≡ true
    → trim_space u (c ∷ cs) ≢ []
unfolding trim_space trim_left trim_right
trim_space-ne-nil u laws c cs h = elim (Bool-cases (is_ascii (c ∷ cs))) [
  | inl a ↦ λ e. step (trim_right cs) (ground arith)
  | inr n ↦ λ e. laws.trim_nonempty c cs h (ground arith)
]
  where
    step : (r : Bytes) → keep_unless_space c r ≢ []
    step [] e = ground arith
    step (d ∷ ds) e = cc

abbrev pub lacks : ℕ → Bytes → Bool
lacks b = all_of (λ c. not (c == b))

-- Cutting at the first separator finds what was joined there.
pub cut-append :
    (sep : ℕ) (k v : Bytes) → lacks sep k ≡ true → cut sep (k ++ (sep ∷ v)) ≡ some (k, v)
unfolding cut
cut-append sep [] v h = ground arith
cut-append sep (c ∷ cs) v h = ground (arith, cut-append sep cs v)

pub cut-lacks : (sep : ℕ) (s : Bytes) → lacks sep s ≡ true → cut sep s ≡ none
unfolding cut
cut-lacks sep [] h = refl
cut-lacks sep (c ∷ cs) h = ground (arith, cut-lacks sep cs)

split-lacks : (sep : ℕ) (p : Bytes) → lacks sep p ≡ true → split sep p ≡ p ∷ []
unfolding split
split-lacks sep [] h = refl
split-lacks sep (c ∷ cs) h = ground (arith, split-lacks sep cs)

split-append :
    (sep : ℕ) (p rest : Bytes)
    → lacks sep p ≡ true
    → split sep (p ++ (sep ∷ rest)) ≡ p ∷ split sep rest
unfolding split
split-append sep [] rest h = ground arith
split-append sep (c ∷ cs) rest h = ground (arith, split-append sep cs rest)

-- Splitting undoes joining, for parts without the separator.
pub split-join :
    (sep : ℕ) (p : Bytes) (ps : List Bytes)
    → all_of (lacks sep) (p ∷ ps) ≡ true
    → split sep (join sep (p ∷ ps)) ≡ p ∷ ps
unfolding join
split-join sep p [] h = split-lacks sep p (ground arith)
split-join sep p (q ∷ qs) h =
    split-append sep p (join sep (q ∷ qs)) (ground arith)
    ∙ ap (◌∷◌ p) (split-join sep q qs (ground arith))

-- ===== src/Tests/Instances.antt =====
-- Concrete stand-ins for the code outside the repository, on which the properties are run.
use mathlib.Core.List.{Permᴰ}
use mathlib.Core.List.Permᴰ
use mathlib.Core.List.Permᴰ.{cons, swap, trans}
use decentralized_dns.Base.{
  ℕ, zero, suc, Bytes, List, [], ◌∷◌, ◌++◌, true, false, none, some, ◌≡◌, refl, length, replicate,
  codes, arith, Bool-cases, inl, inr,
}
use decentralized_dns.Base.Text.{Unicode, trim_space, is_ascii}
use decentralized_dns.Base.TextLaws.{UnicodeLaws}
use decentralized_dns.ContentType.{Sniffer}
use decentralized_dns.Query.Selector.{Pair, bytes_le, insert_sorted, sort_pairs}
use decentralized_dns.Query.Order.{bytes_le_total}
use decentralized_dns.Pki.Owner.{SliceSort, in_order, Secp}
use decentralized_dns.Pki.Resource.{Signing}
use decentralized_dns.Server.Limiter.{Rate}
use decentralized_dns.Torrent.Fetch.{Hexes}
use decentralized_dns.Zk.Pack.{Gnark}

-- text functions that leave a text that is not ASCII as it is
abbrev pub plain : Unicode
plain = record { trim_space = λ s. s; to_lower = λ s. s; to_upper = λ s. s; rune_count = length }

trim_space-plain : (s : Bytes) → is_ascii s ≡ false → trim_space plain s ≡ s
unfolding trim_space
trim_space-plain s h = ground (arith, h)

pub plain_laws : UnicodeLaws plain
plain_laws = record { trim_idem = λ s h. trim_space-plain s h; trim_nonempty = λ c cs h e. cc }

insert_sorted-Permᴰ : (p : Pair) (l : List Pair) → Permᴰ (insert_sorted p l) (p ∷ l)
unfolding insert_sorted
insert_sorted-Permᴰ p [] = Permᴰ.refl (p ∷ [])
insert_sorted-Permᴰ p (q ∷ qs) = elim (Bool-cases (bytes_le p.0 q.0)) [
  | inl h ↦ rw (h, insert_sorted) (Permᴰ.refl (p ∷ q ∷ qs))
  | inr h ↦ rw (h, insert_sorted) (trans (cons refl (insert_sorted-Permᴰ p qs)) (swap refl refl))
]

pub sorted-Permᴰ : (l : List Pair) → Permᴰ (sort_pairs l) l
unfolding sort_pairs
sorted-Permᴰ [] = Permᴰ.refl []
sorted-Permᴰ (p ∷ ps) = trans (insert_sorted-Permᴰ p (sort_pairs ps)) (cons refl (sorted-Permᴰ ps))

in_order-insert_sorted :
    (p : Pair) (l : List Pair) → in_order l ≡ true → in_order (insert_sorted p l) ≡ true
unfolding in_order insert_sorted
in_order-insert_sorted p [] h = refl
in_order-insert_sorted p (q ∷ []) h = ground (arith, bytes_le_total p.0 q.0)
in_order-insert_sorted p (q ∷ x ∷ xs) h =
    ground (arith, bytes_le_total p.0 q.0, in_order-insert_sorted p (x ∷ xs))

pub in_order-sorted : (l : List Pair) → in_order (sort_pairs l) ≡ true
unfolding sort_pairs
in_order-sorted [] = unfold in_order in refl
in_order-sorted (p ∷ ps) = in_order-insert_sorted p (sort_pairs ps) (in_order-sorted ps)

-- sort.Slice as an insertion sort
abbrev pub sorter : SliceSort
sorter = record { sort = sort_pairs; sort-perm = sorted-Permᴰ; in_order-sort = in_order-sorted }

abbrev pub raw_sig : Bytes
raw_sig = replicate 64 7 ++ (1 ∷ [])

abbrev pub owner_address : Bytes
owner_address = replicate 20 9

-- one key pair, whose signature is always the same
abbrev pub secp : Secp
secp = record {
  PublicKey = Unit {0};
  PrivateKey = Unit {0};
  public_key = λ k. tt;
  text_hash = λ m. m;
  sig_to_pub = λ d s. some tt;
  from_ecdsa_pub = λ k. 4 ∷ replicate 64 5;
  pubkey_to_address = λ k. owner_address;
  sign = λ d k. some raw_sig;
  sign_format = λ d k s h. (replicate 64 7, 1, refl, omega arith, cc);
  sig_to_pub-sign = λ d k s h. refl;
}

abbrev pub gnark : Gnark
gnark = record {
  Proof = Bytes;
  mimc = λ l. some (replicate 32 3);
  prove = λ l h. some h;
  marshal_solidity = λ p. p;
  Element = Bytes;
  set_bytes_canonical = λ b. some b;
  assemble = λ a b c d e f g h. a ++ (b ++ (c ++ (d ++ (e ++ (f ++ (g ++ h))))));
  verify = λ p h. true;
}

abbrev pub signing : Signing
signing = record {
  PrivateKey = Unit {0};
  public_of = λ k. replicate 32 1;
  sign = λ k m. replicate 64 2;
  verify = λ k m s. true;
  sha256 = λ m. replicate 32 3;
  hex_encode = λ m. m;
  hex_decode = λ m. some m;
  length-public_of = λ k. refl;
  length-sign = λ k m. refl;
  verify-sign = λ k m. refl;
  length-sha256 = λ m. refl;
  hex_decode-hex_encode = λ m. refl;
}

abbrev pub hexes : Hexes
hexes = record {
  sha256 = λ m. replicate 32 6;
  decode_sha = λ s. some (replicate 32 6);
  decode_info_hash = λ s. some s;
}

abbrev pub sniffer : Sniffer
sniffer = record { parse_media_type = λ s. none; detect_content_type = λ b. codes "text/html" }

-- a bucket is the number of tokens left
abbrev pub rate : Rate
rate = record {
  Bucket = ℕ;
  new_limiter = λ rps burst. burst;
  allow = λ b now. elim b [ zero ↦ (false, zero) | suc n ↦ (true, n) ];
}

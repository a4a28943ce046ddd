-- ===== src/Pki/Message.antt =====
-- The message that owners sign (`RecordMessage` of resolver/internal/pki/owner.go): what it tells of a
-- record.
use mathlib.Core.List.{Permᴰ}
use mathlib.Core.List.Permᴰ
use mathlib.Core.List.Permᴰ.{nil, cons, swap, trans}
use decentralized_dns.Base.{
  suc, ◌^◌, ◌<◌, Bytes, List, [], ◌∷◌, true, some, ◌≡◌, refl, sym, ap, ◌∙◌, subst, codes, length,
  append_inj, arith,
}
use decentralized_dns.Base.Wire.{
  str16-append_inj, be16-append_inj, be32-append_inj, be64-append_inj,
}
use decentralized_dns.Chain.Types.{Record, with_fields}
use decentralized_dns.Query.Selector.{Pair, insert_sorted, sort_pairs}
use decentralized_dns.Query.Order.{fresh_keys, sort_pairs-perm}
use decentralized_dns.Pki.Owner.{
  SliceSort, in_order, field_pairs, write_pairs, write_message, record_message,
}

-- a length that uint16 holds
abbrev pub Short : Bytes → Type 0
Short s = length s < 2 ^ 16

abbrev pub ShortPairs : List Pair → Type 0
ShortPairs [] = Unit {0}
ShortPairs ((k, v) ∷ ps) = Short k × Short v × ShortPairs ps

write_pairs_inj :
    (ps qs : List Pair)
    → length ps ≡ length qs
    → ShortPairs ps
    → ShortPairs qs
    → write_pairs ps ≡ write_pairs qs
    → ps ≡ qs
unfolding write_pairs
write_pairs_inj [] [] n hp hq e = refl
write_pairs_inj [] (q ∷ qs) n hp hq e = absurd (omega arith)
write_pairs_inj (p ∷ ps) [] n hp hq e = absurd (omega arith)
write_pairs_inj ((k, v) ∷ ps) ((j, w) ∷ qs) n (hk, hv, hp) (hj, hw, hq) e =
    let (keys, e1) = str16-append_inj k j _ _ hk hj e in
    let (vals, e2) = str16-append_inj v w _ _ hv hw e1 in
    let rest = write_pairs_inj ps qs (omega arith) hp hq e2 in cc

-- the sizes that the message's length prefixes hold
pub record FitsMessage (name : Bytes) (r : Record) (ps : List Pair) : Type 0 where
  pub name_fits : Short name
  pub type_fits : Short r.rtype
  pub selector_fits : Short r.selector
  pub ttl_fits : r.ttl < 2 ^ 32
  pub generation_fits : r.generation < 2 ^ 64
  pub count_fits : length ps < 2 ^ 16
  pub fields_fit : ShortPairs ps

-- what the message tells of a record besides its fields
pub record SameContent (name name' : Bytes) (r r' : Record) : Type 0 where
  pub same_name : name ≡ name'
  pub same_type : r.rtype ≡ r'.rtype
  pub same_selector : r.selector ≡ r'.selector
  pub same_ttl : r.ttl ≡ r'.ttl
  pub same_generation : r.generation ≡ r'.generation

write_message_inj :
    (name name' : Bytes) (r r' : Record) (ps ps' : List Pair)
    → FitsMessage name r ps
    → FitsMessage name' r' ps'
    → write_message name r ps ≡ write_message name' r' ps'
    → SameContent name name' r r' × (ps ≡ ps')
unfolding write_message
write_message_inj name name' r r' ps ps' h h' e =
    let (_, e0) = append_inj (codes "ddns-record-v2") (codes "ddns-record-v2") _ _ refl e in
    let (names, e1) = str16-append_inj name name' _ _ h.name_fits h'.name_fits e0 in
    let (types, e2) = str16-append_inj r.rtype r'.rtype _ _ h.type_fits h'.type_fits e1 in
    let (sels, e3) =
      str16-append_inj r.selector r'.selector _ _ h.selector_fits h'.selector_fits e2 in
    let (ttls, e4) = be32-append_inj r.ttl r'.ttl _ _ h.ttl_fits h'.ttl_fits e3 in
    let (gens, e5) =
      be64-append_inj r.generation r'.generation _ _ h.generation_fits h'.generation_fits e4 in
    let (counts, e6) = be16-append_inj (length ps) (length ps') _ _ h.count_fits h'.count_fits e5 in
    let pairs = write_pairs_inj ps ps' counts h.fields_fit h'.fields_fit e6 in
    (
      record {
        same_name = names;
        same_type = types;
        same_selector = sels;
        same_ttl = ttls;
        same_generation = gens;
      },
      pairs,
    )

length-Permᴰ : {ps qs : List Pair} → Permᴰ ps qs → length ps ≡ length qs
length-Permᴰ nil = refl
length-Permᴰ (cons e p) = ap suc (length-Permᴰ p)
length-Permᴰ (swap e e1) = refl
length-Permᴰ (trans p q) = length-Permᴰ p ∙ length-Permᴰ q

ShortPairs-Permᴰ : {ps qs : List Pair} → Permᴰ ps qs → ShortPairs ps → ShortPairs qs
ShortPairs-Permᴰ nil h = h
ShortPairs-Permᴰ (cons e p) (hk, hv, h) = (
  subst (λ (x : Pair). Short x.0) e hk,
  subst (λ (x : Pair). Short x.1) e hv,
  ShortPairs-Permᴰ p h,
)
ShortPairs-Permᴰ (swap {a} {b} {a'} {b'} {l} e e1) (hk, hv, tail) =
    let first : Short a'.0 × Short a'.1 =
      subst (λ (x : Pair). Short x.0 × Short x.1) e1 (tail.0, tail.1) in
    let second : Short b'.0 × Short b'.1 = subst (λ (x : Pair). Short x.0 × Short x.1) e (hk, hv) in
    (first.0, first.1, (second.0, second.1, tail.2))
ShortPairs-Permᴰ (trans p q) h = ShortPairs-Permᴰ q (ShortPairs-Permᴰ p h)

FitsMessage-Permᴰ :
    (name : Bytes) (r : Record) {ps qs : List Pair}
    → Permᴰ ps qs
    → FitsMessage name r ps
    → FitsMessage name r qs
FitsMessage-Permᴰ name r p h = record {
  name_fits = h.name_fits;
  type_fits = h.type_fits;
  selector_fits = h.selector_fits;
  ttl_fits = h.ttl_fits;
  generation_fits = h.generation_fits;
  count_fits = subst (λ n. n < 2 ^ 16) (length-Permᴰ p) h.count_fits;
  fields_fit = ShortPairs-Permᴰ p h.fields_fit;
}

pub record_message-eq :
    (o : SliceSort) (name : Bytes) (r : Record) (ps : List Pair)
    → field_pairs r.field_names r.field_vals ≡ some ps
    → record_message o name r ≡ some (write_message name r (o.sort ps))
unfolding record_message
record_message-eq o name r ps e = rw (record_message, e)

-- Two records with equal messages, whose lengths and numbers fit the prefixes and widths that the
-- message has for them, have the same name, type, selector, TTL and generation, and the same field
-- pairs up to their order.
pub record_message_inj :
    (o : SliceSort) (name name' : Bytes) (r r' : Record) (ps ps' : List Pair)
    → field_pairs r.field_names r.field_vals ≡ some ps
    → field_pairs r'.field_names r'.field_vals ≡ some ps'
    → FitsMessage name r ps
    → FitsMessage name' r' ps'
    → record_message o name r ≡ record_message o name' r'
    → SameContent name name' r r' × Permᴰ ps ps'
record_message_inj o name name' r r' ps ps' e e' h h' same =
    let written : write_message name r (o.sort ps) ≡ write_message name' r' (o.sort ps') =
      cc (record_message-eq o name r ps e, record_message-eq o name' r' ps' e', same) in
    let (content, sorted) =
      write_message_inj name name' r r' (o.sort ps) (o.sort ps')
        (FitsMessage-Permᴰ name r (Permᴰ.symm (o.sort-perm ps)) h)
        (FitsMessage-Permᴰ name' r' (Permᴰ.symm (o.sort-perm ps')) h') written in
    (
      content,
      trans (Permᴰ.symm (o.sort-perm ps)) (subst (λ l. Permᴰ l ps') (sym sorted) (o.sort-perm ps')),
    )

sort_pairs-in_order : (ps : List Pair) → in_order ps ≡ true → sort_pairs ps ≡ ps
unfolding in_order sort_pairs insert_sorted
sort_pairs-in_order [] h = refl
sort_pairs-in_order (p ∷ []) h = refl
sort_pairs-in_order (p ∷ q ∷ ps) h = ground (arith, sort_pairs-in_order (q ∷ ps))

-- What a sort of distinct keys returns does not depend on the algorithm.
sort-sort_pairs :
    (o : SliceSort) (ps : List Pair) → fresh_keys [] ps ≡ true → o.sort ps ≡ sort_pairs ps
sort-sort_pairs o ps h =
    sym (sort_pairs-in_order (o.sort ps) (o.in_order-sort ps))
    ∙ sym ((sort_pairs-perm (Permᴰ.symm (o.sort-perm ps)) [] h).0)

-- Two records that differ only in the order of their field pairs, whose field names are distinct,
-- have the same message.
pub record_message-perm :
    (o : SliceSort) (name : Bytes) (r : Record) (names vals : List Bytes) (ps ps' : List Pair)
    → field_pairs r.field_names r.field_vals ≡ some ps
    → field_pairs names vals ≡ some ps'
    → Permᴰ ps ps'
    → fresh_keys [] ps ≡ true
    → record_message o name r ≡ record_message o name (with_fields r names vals)
record_message-perm o name r names vals ps ps' e e' p new =
    let r' : Record = with_fields r names vals in
    let (sorted, new') = sort_pairs-perm p [] new in
    let same = sort-sort_pairs o ps new ∙ sorted ∙ sym (sort-sort_pairs o ps' new') in
    let written : some (write_message name r (o.sort ps'))
        ≡ some (write_message name r' (o.sort ps')) =
      unfold write_message in refl in
    record_message-eq o name r ps e
    ∙ ap (λ l. some (write_message name r l)) same
    ∙ written
    ∙ sym (record_message-eq o name r' ps' e')

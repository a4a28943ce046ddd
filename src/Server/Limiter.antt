-- ===== src/Server/Limiter.antt =====
-- resolver/internal/server/ratelimit.go: the map of per-address token buckets.
use decentralized_dns.Base.{
  ℕ, suc, ◌+◌, ◌≤◌, Bytes, Bytes-discrete, List, [], ◌∷◌, Bool, true, not, Option, none, some, ltb,
  leb, ite, if◌then◌else◌, length, ◌≡◌, refl, ap, ◌∙◌, arith, inl, inr, all_of, Option-cases,
}

-- golang.org/x/time/rate: a bucket made by NewLimiter, and Allow at a time
pub record Rate : Type 1 where
  pub Bucket : Type 0
  pub new_limiter : ℕ → ℕ → Bucket
  pub allow : Bucket → ℕ → Bool × Bucket

abbrev pub max_tracked_ips : ℕ
max_tracked_ips = 4096

-- time.Minute
abbrev pub minute : ℕ
minute = 60000000000

module _ (r : Rate) where
  pub record LimiterEntry : Type 0 where
    pub ip : Bytes
    pub lim : r.Bucket
    pub last_seen : ℕ

  -- The map `entries` is the list of its entries, one for each address.
  pub record IpLimiter : Type 0 where
    pub entries : List LimiterEntry
    pub rps : ℕ
    pub burst : ℕ

  unfoldable pub new_ip_limiter : ℕ → ℕ → IpLimiter
  new_ip_limiter rps burst = record { entries = []; rps = rps; burst = burst }

  unfoldable pub lookup : Bytes → List LimiterEntry → Option LimiterEntry
  lookup ip [] = none
  lookup ip (e ∷ es) = ite (Bytes-discrete ip e.ip) (some e) (lookup ip es)

  -- the entry of an address overwritten
  unfoldable pub store : LimiterEntry → List LimiterEntry → List LimiterEntry
  store e [] = e ∷ []
  store e (d ∷ ds) = ite (Bytes-discrete e.ip d.ip) (e ∷ ds) (d ∷ store e ds)

  -- prune: what was seen before the cutoff `now - minute` is deleted.
  unfoldable pub prune : ℕ → List LimiterEntry → List LimiterEntry
  prune now [] = []
  prune now (e ∷ es) = if ltb (e.last_seen + minute) now then prune now es else e ∷ prune now es

  -- the entry that allow works on, and the map that it stands in
  unfoldable pub find_or_add : IpLimiter → ℕ → Bytes → LimiterEntry × List LimiterEntry
  unfolding lookup prune
  find_or_add l now ip = elim (lookup ip l.entries) [
    | some e ↦ (e, l.entries)
    | none ↦ (
      record { ip = ip; lim = r.new_limiter l.rps l.burst; last_seen = now },
      if leb max_tracked_ips (length l.entries) then prune now l.entries else l.entries,
    )
  ]

  -- One time stands for the readings of the clock in one call.
  unfoldable pub allow : IpLimiter → ℕ → Bytes → IpLimiter × Bool
  unfolding find_or_add store
  allow l now ip =
      let (e, entries) = find_or_add l now ip in
      let (verdict, bucket) = r.allow e.lim now in
      (
        record {
          entries = store (record { ip = ip; lim = bucket; last_seen = now }) entries;
          rps = l.rps;
          burst = l.burst;
        },
        verdict,
      )

  length-prune : (now : ℕ) (es : List LimiterEntry) → length (prune now es) ≤ length es
  unfolding prune
  length-prune now [] = omega arith
  length-prune now (e ∷ es) = ground (arith, length-prune now es)

  -- whether everything was seen within the last minute
  abbrev pub recent : ℕ → List LimiterEntry → Bool
  recent now es = all_of (λ e. not (ltb (e.last_seen + minute) now)) es

  prune-recent : (now : ℕ) (es : List LimiterEntry) → recent now es ≡ true → prune now es ≡ es
  unfolding prune
  prune-recent now [] h = refl
  prune-recent now (e ∷ es) h = ground (arith, prune-recent now es)

  entries-find_or_add :
      (l : IpLimiter) (now : ℕ) (ip : Bytes)
      → recent now l.entries ≡ true
      → (find_or_add l now ip).1 ≡ l.entries
  unfolding find_or_add
  entries-find_or_add l now ip h = elim (Option-cases (lookup ip l.entries)) [
    | inl q ↦ ground (arith, q, prune-recent now l.entries h)
    | inr (e, q) ↦ ground (arith, q)
  ]

  lookup-store :
      (e : LimiterEntry) (es : List LimiterEntry) (j : Bytes)
      → lookup j (store e es) ≡ ite (Bytes-discrete j e.ip) (some e) (lookup j es)
  unfolding lookup store
  lookup-store e [] j = ground arith
  lookup-store e (d ∷ ds) j = ground (arith, lookup-store e ds j)

  -- the bucket of an address: a full one if it is not tracked
  unfoldable pub bucket_of : IpLimiter → Bytes → r.Bucket
  bucket_of l ip = elim (lookup ip l.entries) [
    | none ↦ r.new_limiter l.rps l.burst
    | some e ↦ e.lim
  ]

  lim-find_or_add :
      (l : IpLimiter) (now : ℕ) (ip : Bytes) → (find_or_add l now ip).0.lim ≡ bucket_of l ip
  unfolding find_or_add bucket_of
  lim-find_or_add l now ip = elim (Option-cases (lookup ip l.entries)) [
    | inl q ↦ rw (q, find_or_add, bucket_of) refl
    | inr (e, q) ↦ rw (q, find_or_add, bucket_of) refl
  ]

  -- A request takes the verdict of its own address's bucket and changes no other address, while
  -- nothing tracked is more than a minute old.
  pub allow_lem :
      (l : IpLimiter) (now : ℕ) (ip j : Bytes)
      → recent now l.entries ≡ true
      → ((allow l now ip).1 ≡ (r.allow (bucket_of l ip) now).0)
        × (bucket_of (allow l now ip).0 j
            ≡ ite (Bytes-discrete j ip) (r.allow (bucket_of l ip) now).1 (bucket_of l j))
  unfolding allow
  allow_lem l now ip j h =
      let e : r.Bucket → LimiterEntry =
        λ b. record { ip = ip; lim = (r.allow b now).1; last_seen = now } in
      let Left : Option LimiterEntry → r.Bucket =
        λ f. elim f [ none ↦ r.new_limiter l.rps l.burst | some d ↦ d.lim ] in
      let stored =
        lookup-store (e (find_or_add l now ip).0.lim) (find_or_add l now ip).1 j
        ∙ ap
            (λ (b : r.Bucket).
              ite (Bytes-discrete j ip) (some (e b)) (lookup j (find_or_add l now ip).1))
            (lim-find_or_add l now ip)
        ∙ ap
            (λ (es : List LimiterEntry).
              ite (Bytes-discrete j ip) (some (e (bucket_of l ip))) (lookup j es))
            (entries-find_or_add l now ip h) in
      (
        ap (λ (b : r.Bucket). (r.allow b now).0) (lim-find_or_add l now ip),
        unfold bucket_of in (ap Left stored ∙ ground arith),
      )

  length-store_new :
      (e : LimiterEntry) (es : List LimiterEntry)
      → lookup e.ip es ≡ none
      → length (store e es) ≡ suc (length es)
  unfolding lookup store
  length-store_new e [] h = refl
  length-store_new e (d ∷ ds) h = ground (arith, length-store_new e ds)

  -- An address that is not tracked is added to a map whose entries are all at most a minute old,
  -- however many they are: `max_tracked_ips` does not bound the map.
  pub length-allow_recent :
      (l : IpLimiter) (now : ℕ) (ip : Bytes)
      → lookup ip l.entries ≡ none
      → recent now l.entries ≡ true
      → length (allow l now ip).0.entries ≡ suc (length l.entries)
  unfolding allow find_or_add
  length-allow_recent l now ip new fresh =
      let e : LimiterEntry = record {
        ip = ip;
        lim = (r.allow (find_or_add l now ip).0.lim now).1;
        last_seen = now;
      } in
      ap (λ (es : List LimiterEntry). length (store e es)) (entries-find_or_add l now ip fresh)
      ∙ length-store_new e l.entries new

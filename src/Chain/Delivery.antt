-- ===== src/Chain/Delivery.antt =====
-- The polling of resolver/internal/chain/events.go against the events of the chain.
use mathlib.Core.List.{Mem, mem-map_of_mem, mem-append_left, mem-append_right}
use decentralized_dns.Base.{
  ℕ, zero, suc, ◌+◌, ◌-◌, ◌≤◌, ◌<◌, List, [], ◌++◌, map, Bool, true, false, Option, none, some, ltb,
  ◌≡◌, refl, sym, ap, ◌∙◌, subst, arith, Bool-cases, inl, inr, dec_le,
}
use decentralized_dns.Cache.State.{RecordEvent, record_set, record_removed, transferred, registered}
use decentralized_dns.Chain.Events.{
  RecordLog, TransferLog, RegistrationLog, set_event, removed_event, transferred_event,
  registered_event, max_block_span, Filters, Filtered, rejected, iterated, deliver, collect_events,
  window_end, catch_up, tick,
}

-- A filter that gives no error over a range of at most `max_block_span` blocks gives every entry of
-- its log in these blocks.
abbrev pub Covers : {L : Type 0} → (ℕ → List L) → (ℕ → ℕ → Filtered L) → Type 0
Covers {L} log filter =
    (start end n : ℕ) (x : L) (xs : List L)
    → start ≤ n
    → n ≤ end
    → end < start + max_block_span
    → filter start end ≡ iterated xs true
    → Mem x (log n)
    → Mem x xs

-- The event that a resolver has to hear of for an entry of a log in a block. A transfer names the hash
-- of the domain alone, and only the events about records have a type and a selector.
pub data IsLogged (sets removals : ℕ → List RecordLog) (transfers : ℕ → List TransferLog)
    (registrations : ℕ → List RegistrationLog) (n : ℕ) : RecordEvent → Type 0 where
  in_sets :
      (x : RecordLog)
      → Mem x (sets n)
      → IsLogged sets removals transfers registrations n (record {
        kind = record_set;
        name = x.name;
        name_hash = x.name_hash;
        record_type = x.record_type;
        selector = x.selector;
        block = x.block_number;
      })
  in_removals :
      (x : RecordLog)
      → Mem x (removals n)
      → IsLogged sets removals transfers registrations n (record {
        kind = record_removed;
        name = x.name;
        name_hash = x.name_hash;
        record_type = x.record_type;
        selector = x.selector;
        block = x.block_number;
      })
  in_transfers :
      (x : TransferLog)
      → Mem x (transfers n)
      → IsLogged sets removals transfers registrations n (record {
        kind = transferred;
        name = [];
        name_hash = x.name_hash;
        record_type = [];
        selector = [];
        block = x.block_number;
      })
  in_registrations :
      (x : RegistrationLog)
      → Mem x (registrations n)
      → IsLogged sets removals transfers registrations n (record {
        kind = registered;
        name = x.name;
        name_hash = x.name_hash;
        record_type = [];
        selector = [];
        block = x.block_number;
      })

deliver_rest :
    {L : Type 0} (event : L → RecordEvent) (x : Filtered L) (rest : List RecordEvent × Bool)
    → (deliver event x rest).1 ≡ true
    → (rest.1 ≡ true) × ((ev : RecordEvent) → Mem ev rest.0 → Mem ev (deliver event x rest).0)
deliver_rest event rejected rest h = cc
deliver_rest event (iterated xs false) rest h = cc
deliver_rest event (iterated xs true) rest h = (h, λ ev m. mem-append_right (map event xs) m)

deliver_own :
    {L : Type 0} (event : L → RecordEvent) (x : Filtered L) (rest : List RecordEvent × Bool)
    → (deliver event x rest).1 ≡ true
    → (xs : List L) × (x ≡ iterated xs true)
      × ((l : L) → Mem l xs → Mem (event l) (deliver event x rest).0)
deliver_own event rejected rest h = cc
deliver_own event (iterated xs false) rest h = cc
deliver_own event (iterated xs true) rest h =
    (xs, refl, λ l m. mem-append_left rest.0 (mem-map_of_mem event m))

pub window_end_le : (last head : ℕ) → window_end last head < last + 1 + max_block_span
unfolding window_end
window_end_le last head = ground arith

pub window_end_gt :
    (last head : ℕ) → last < head → (last < window_end last head) × (window_end last head ≤ head)
unfolding window_end
window_end_gt last head h = (ground arith, ground arith)

module _ (f : Filters) (fuel last head : ℕ) where
  catch_up_done : ltb last head ≡ false → catch_up (suc fuel) f last head ≡ (last, [])
  unfolding catch_up
  catch_up_done h = rw h refl

  catch_up_failed :
      ltb last head ≡ true
      → (collect_events f (last + 1) (window_end last head)).1 ≡ false
      → catch_up (suc fuel) f last head
        ≡ (last, (collect_events f (last + 1) (window_end last head)).0)
  unfolding catch_up
  catch_up_failed h bad = rw (h, bad) refl

  catch_up_next :
      ltb last head ≡ true
      → (collect_events f (last + 1) (window_end last head)).1 ≡ true
      → catch_up (suc fuel) f last head ≡ (
        (catch_up fuel f (window_end last head) head).0,
        (collect_events f (last + 1) (window_end last head)).0
            ++ (catch_up fuel f (window_end last head) head).1,
      )
  unfolding catch_up
  catch_up_next h good = rw (h, good) refl

module _ (f : Filters) (working : (start end : ℕ) → (collect_events f start end).1 ≡ true) where
  catch_up_head :
      (fuel last head : ℕ) → last ≤ head → head ≤ last + fuel → (catch_up fuel f last head).0 ≡ head
  catch_up_head zero last head h k = unfold catch_up in omega arith
  catch_up_head (suc fuel) last head h k = elim (Bool-cases (ltb last head)) [
    | inr done ↦
        ap (λ (r : ℕ × List RecordEvent). r.0) (catch_up_done f fuel last head done) ∙ ground arith
    | inl more ↦
        let end = window_end last head in
        let (ahead, within) = window_end_gt last head (ground arith) in
        ap (λ (r : ℕ × List RecordEvent). r.0)
          (catch_up_next f fuel last head more (working (last + 1) end))
        ∙ catch_up_head fuel end head within (omega arith)
  ]

  -- With filters that give no error, a tick from a block that is not past the head of the chain reaches
  -- the head, however far it is.
  pub tick_head : (last head : ℕ) → last ≤ head → (tick f last (some head)).0 ≡ head
  unfolding tick
  tick_head last head h = catch_up_head (head - last) last head h (omega arith)

module _ (f : Filters) (sets removals : ℕ → List RecordLog) (transfers : ℕ → List TransferLog)
    (registrations : ℕ → List RegistrationLog) (sets_covered : Covers sets f.sets)
    (removals_covered : Covers removals f.removals)
    (transfers_covered : Covers transfers f.transfers)
    (registrations_covered : Covers registrations f.registrations) where
  abbrev Logged : ℕ → RecordEvent → Type 0
  Logged = IsLogged sets removals transfers registrations

  -- a filter that gave its whole log, and whose entries are delivered
  abbrev Given : {L : Type 0} → (L → RecordEvent) → Filtered L → ℕ → ℕ → Type 0
  Given {L} event filtered start end =
      (xs : List L) × (filtered ≡ iterated xs true)
      × ((l : L) → Mem l xs → Mem (event l) (collect_events f start end).0)

  collect_events_lem :
      (start end : ℕ)
      → (collect_events f start end).1 ≡ true
      → Given set_event (f.sets start end) start end
        × Given removed_event (f.removals start end) start end
        × Given transferred_event (f.transfers start end) start end
        × Given registered_event (f.registrations start end) start end
  unfolding collect_events
  collect_events_lem start end h =
      let r4 = deliver registered_event (f.registrations start end) ([], true) in
      let r3 = deliver transferred_event (f.transfers start end) r4 in
      let r2 = deliver removed_event (f.removals start end) r3 in
      let (h2, up1) = deliver_rest set_event (f.sets start end) r2 h in
      let (h3, up2) = deliver_rest removed_event (f.removals start end) r3 h2 in
      let (h4, up3) = deliver_rest transferred_event (f.transfers start end) r4 h3 in
      let (xs1, e1, own1) = deliver_own set_event (f.sets start end) r2 h in
      let (xs2, e2, own2) = deliver_own removed_event (f.removals start end) r3 h2 in
      let (xs3, e3, own3) = deliver_own transferred_event (f.transfers start end) r4 h3 in
      let (xs4, e4, own4) =
        deliver_own registered_event (f.registrations start end) ([], true) h4 in
      (
        (xs1, e1, own1),
        (xs2, e2, λ l m. up1 (removed_event l) (own2 l m)),
        (xs3, e3, λ l m. up1 (transferred_event l) (up2 (transferred_event l) (own3 l m))),
        (
          xs4,
          e4,
          λ l m.
              up1 (registered_event l)
                (up2 (registered_event l) (up3 (registered_event l) (own4 l m))),
        ),
      )

  collect_events-complete :
      (start end n : ℕ) (ev : RecordEvent)
      → start ≤ n
      → n ≤ end
      → end < start + max_block_span
      → (collect_events f start end).1 ≡ true
      → Logged n ev
      → Mem ev (collect_events f start end).0
  unfolding set_event removed_event transferred_event registered_event
  collect_events-complete start end n _ lo hi span h (in_sets x m) =
      let (xs, e, own) = (collect_events_lem start end h).0 in
      own x (sets_covered start end n x xs lo hi span e m)
  collect_events-complete start end n _ lo hi span h (in_removals x m) =
      let (xs, e, own) = (collect_events_lem start end h).1 in
      own x (removals_covered start end n x xs lo hi span e m)
  collect_events-complete start end n _ lo hi span h (in_transfers x m) =
      let (xs, e, own) = (collect_events_lem start end h).2 in
      own x (transfers_covered start end n x xs lo hi span e m)
  collect_events-complete start end n _ lo hi span h (in_registrations x m) =
      let (xs, e, own) = (collect_events_lem start end h).3 in
      own x (registrations_covered start end n x xs lo hi span e m)

  catch_up-complete :
      (fuel last head n : ℕ) (ev : RecordEvent)
      → last < n
      → Logged n ev
      → n ≤ (catch_up fuel f last head).0
      → Mem ev (catch_up fuel f last head).1
  catch_up-complete zero last head n ev lo logged = λ hi. absurd (unfold catch_up in omega arith)
  catch_up-complete (suc fuel) last head n ev lo logged =
      let Found : ℕ × List RecordEvent → Type 0 = λ r. n ≤ r.0 → Mem ev r.1 in
      let end = window_end last head in
      let got = collect_events f (last + 1) end in
      elim (Bool-cases (ltb last head)) [
        | inr done ↦
            subst Found (sym (catch_up_done f fuel last head done)) (λ hi. absurd (omega arith))
        | inl more ↦ elim (Bool-cases got.1) [
          | inr bad ↦
              subst Found (sym (catch_up_failed f fuel last head more bad))
                (λ hi. absurd (omega arith))
          | inl good ↦ subst Found (sym (catch_up_next f fuel last head more good)) (λ hi.
              elim (dec_le n end) [
                | yes inside ↦ mem-append_left (catch_up fuel f end head).1 (
                    collect_events-complete (last + 1) end n ev (omega arith) inside
                      (window_end_le last head) good logged)
                | no outside ↦
                    mem-append_right got.0
                      (catch_up-complete fuel end head n ev (omega arith) logged hi)
              ])
        ]
      ]

  -- For filters that are complete over windows of at most `max_block_span` blocks: a tick that moves
  -- from block `last` to a later block delivers, for every log entry in the blocks after `last` up to
  -- that block, the event of its kind with the name, the name hash, the type, the selector and the
  -- block of the entry, as far as its kind has them, whatever errors the tick met.
  pub tick-complete :
      (last n : ℕ) (head : Option ℕ) (ev : RecordEvent)
      → last < n
      → n ≤ (tick f last head).0
      → Logged n ev
      → Mem ev (tick f last head).1
  unfolding tick
  tick-complete last n none ev lo hi logged = absurd (omega arith)
  tick-complete last n (some head) ev lo hi logged =
      catch_up-complete (head - last) last head n ev lo logged hi

-- ===== src/Chain/Events.antt =====
-- resolver/internal/chain/events.go: the polling of contract events, one tick at a time.

use decentralized_dns.Base.{
  ℕ, zero, suc, ◌+◌, ◌-◌, Bytes, List, [], ◌++◌, map, Bool, true, false, Option, none, some, ltb,
  if◌then◌else◌,
}
use decentralized_dns.Cache.State.{RecordEvent, record_set, record_removed, transferred, registered}

abbrev pub max_block_span : ℕ
max_block_span = 2000

-- What the code reads of the events that the contract bindings decode: of RecordSet and RecordRemoved,
-- of Transferred, which has the hash of the name alone, and of Registered.
pub record RecordLog : Type 0 where
  pub name : Bytes
  pub name_hash : Bytes
  pub record_type : Bytes
  pub selector : Bytes
  pub block_number : ℕ

pub record TransferLog : Type 0 where
  pub name_hash : Bytes
  pub block_number : ℕ

pub record RegistrationLog : Type 0 where
  pub name : Bytes
  pub name_hash : Bytes
  pub block_number : ℕ

-- the conversions to a RecordEvent; a field that is not set is its zero value.
unfoldable pub set_event : RecordLog → RecordEvent
set_event l = record {
  kind = record_set;
  name = l.name;
  name_hash = l.name_hash;
  record_type = l.record_type;
  selector = l.selector;
  block = l.block_number;
}

unfoldable pub removed_event : RecordLog → RecordEvent
removed_event l = record {
  kind = record_removed;
  name = l.name;
  name_hash = l.name_hash;
  record_type = l.record_type;
  selector = l.selector;
  block = l.block_number;
}

unfoldable pub transferred_event : TransferLog → RecordEvent
transferred_event l = record {
  kind = transferred;
  name = [];
  name_hash = l.name_hash;
  record_type = [];
  selector = [];
  block = l.block_number;
}

unfoldable pub registered_event : RegistrationLog → RecordEvent
registered_event l = record {
  kind = registered;
  name = l.name;
  name_hash = l.name_hash;
  record_type = [];
  selector = [];
  block = l.block_number;
}

-- What a filter call over a range of blocks gives: an error, or an iterator over some events, which
-- may end in an error.
pub data Filtered (L : Type 0) : Type 0 where
  rejected : Filtered L
  iterated : List L → Bool → Filtered L

-- the four filters of the contract bindings, over the blocks from one number to another
pub record Filters : Type 0 where
  pub sets : ℕ → ℕ → Filtered RecordLog
  pub removals : ℕ → ℕ → Filtered RecordLog
  pub transfers : ℕ → ℕ → Filtered TransferLog
  pub registrations : ℕ → ℕ → Filtered RegistrationLog

-- the delivery of the events of one filter, converted, before the rest of the function
abbrev pub deliver :
    {L : Type 0}
    → (L → RecordEvent)
    → Filtered L
    → List RecordEvent × Bool
    → List RecordEvent × Bool
deliver event rejected rest = ([], false)
deliver event (iterated logs false) rest = (map event logs, false)
deliver event (iterated logs true) rest = (map event logs ++ rest.0, rest.1)

-- collectEvents: what it hands to the handler, and whether it returns without an error
unfoldable pub collect_events : Filters → ℕ → ℕ → List RecordEvent × Bool
collect_events f start end = deliver set_event (f.sets start end) (
    deliver removed_event (f.removals start end) (
      deliver transferred_event (f.transfers start end)
        (deliver registered_event (f.registrations start end) ([], true))))

-- the end of the window after `last`
unfoldable pub window_end : ℕ → ℕ → ℕ
window_end last head = if ltb max_block_span (head - last) then last + max_block_span else head

-- The inner loop of WatchRecordEvents: the last block that is done with, and what was delivered. A
-- window advances by a block or more, so `head - last` rounds are enough.
unfoldable pub catch_up : ℕ → Filters → ℕ → ℕ → ℕ × List RecordEvent
unfolding collect_events window_end
catch_up zero f last head = (last, [])
catch_up (suc fuel) f last head =
    let end = window_end last head in
    let window = collect_events f (last + 1) end in
    let rest = catch_up fuel f end head in
    if ltb last head
    then (if window.1 then (rest.0, window.0 ++ rest.1) else (last, window.0))
    else (last, [])

-- One tick, on the head that the chain reports; `none` is an error.
unfoldable pub tick : Filters → ℕ → Option ℕ → ℕ × List RecordEvent
unfolding catch_up
tick f last none = (last, [])
tick f last (some head) = catch_up (head - last) f last head

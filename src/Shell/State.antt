-- ===== src/Shell/State.antt =====
-- src/main.cpp: the variables of `main`, and `ensureResource`.
-- Text output is a list of events. `clock` gives the time at which an object is stamped; one
-- reading for each object serves a whole command.
use transaction_manager.Shared.{
  ℕ, ◌+◌, ◌%◌, Option, none, some, List, [], ◌∷◌, ◌++◌, Bytes, ◌==◌, if◌then◌else◌, Result, ok,
  ◌>>=◌,
}
use transaction_manager.Shared.OrderedMap.{OrderedMap}
use transaction_manager.Shared.OrderedSet.{OrderedSet}
use transaction_manager.Shared.Text.{codes, str_eq, pieces, print_int, ℤ, pos}
use transaction_manager.Constants.{u32_mod}
use transaction_manager.Storage.Record.{Record, set_data}
use transaction_manager.Storage.Record
use transaction_manager.Transaction.TransactionManager
use transaction_manager.Concurrency.LockManager.State
use transaction_manager.Storage.DataStore.{empty, DataStore, insert_record}
use transaction_manager.Transaction.TransactionManager.{TransactionManager, is_transaction_active}
use transaction_manager.Concurrency.LockManager.State.{LockManager, at, has_lock}
use transaction_manager.Concurrency.LockManager.Request.{set_resource_parent}
use transaction_manager.Recovery.LogManager.{LogManager}

pub record Command : Type 0 where
  pub op : Bytes
  pub txn_label : Bytes
  pub resource_name : Bytes
  pub value : ℤ

-- A std::map from strings to ids, which the program never iterates.
abbrev pub Table : Type 0
Table = List (Bytes × ℕ)

unfoldable pub lookup : Bytes → Table → Option ℕ
lookup key [] = none
lookup key ((k, id) ∷ table) = if str_eq k key then some id else lookup key table

unfoldable pub store : Bytes → ℕ → Table → Table
store key id [] = (key, id) ∷ []
store key id ((k, old) ∷ table) =
    let rest = store key id table in if str_eq k key then (k, id) ∷ table else (k, old) ∷ rest

-- What is printed. `invalid` and `unknown` carry the name of the command.
pub data Event : Type 0 where
  waiting_for : Bytes → Bytes → Event
  reads : Bytes → Bytes → ℤ → Event
  writes : Bytes → Bytes → ℤ → Event
  resumes started already_exists not_found not_active committed aborted : Bytes → Event
  invalid unknown : Bytes → Event
  shown : Bytes → ℤ → Event
  status : ℕ → ℕ → ℕ → ℕ → Event
  checkpoint_written help : Event
  recovered : ℕ → ℕ → Event

pub record Clock : Type 0 where
  pub system : ℕ → ℕ
  pub seconds : ℕ → ℤ

pub record Shell : Type 0 where
  pub tm : TransactionManager
  pub lock_mgr : LockManager
  pub log_mgr : LogManager
  pub data_store : DataStore
  pub txn_ids : Table
  pub resource_ids : Table
  pub txn_held_resources : OrderedMap OrderedSet
  pub pending : List Command
  pub next_resource_id : ℕ
  pub output : List Event

-- The start of `main`, with the log manager that it opens.
unfoldable pub start : (ℕ → ℕ) → LogManager → Shell
start place log_mgr = record {
  tm = TransactionManager.init;
  lock_mgr = State.init place;
  log_mgr = log_mgr;
  data_store = empty;
  txn_ids = [];
  resource_ids = [];
  txn_held_resources = [];
  pending = [];
  next_resource_id = 1;
  output = [];
}

-- `std::make_shared<Record>(resource_id)` and `setData`.
unfoldable pub make_record : Clock → ℕ → ℤ → Result Record
make_record clock id value =
    set_data (print_int value) (clock.system id)
      (Record.create id (clock.system id) (clock.system id))

-- The state once the resource has its id, its parent, if that is not 0, and its record.
unfoldable pub with_resource : Bytes → ℕ → Record → Shell → Shell
with_resource path last_id r sh = record sh {
  lock_mgr =
      if last_id == 0
      then sh.lock_mgr
      else set_resource_parent sh.next_resource_id last_id sh.lock_mgr;
  data_store = (insert_record (some r) sh.data_store).1;
  resource_ids = store path sh.next_resource_id sh.resource_ids;
  next_resource_id = (sh.next_resource_id + 1) % u32_mod;
}

unfoldable pub add_resource : Clock → Bytes → ℕ → ℤ → Shell → Result (ℕ × Shell)
add_resource clock path last_id value sh = make_record clock sh.next_resource_id value >>= λ r.
    ok (sh.next_resource_id, with_resource path last_id r sh)

unfoldable pub initial_value : Bytes → ℤ
initial_value path = if str_eq path (codes "A") then pos 10 else pos 0

abbrev pub join : Bytes → Bytes → Bytes
join [] segment = segment
join (c ∷ path) segment = (c ∷ path) ++ b'.' ∷ segment

-- The loop of `ensureResource` over the segments.
unfoldable pub ensure_each : Clock → List Bytes → Bytes → ℕ → Shell → Result (ℕ × Shell)
ensure_each clock [] path last_id sh = ok (last_id, sh)
ensure_each clock ([] ∷ rest) path last_id sh = ensure_each clock rest path last_id sh
ensure_each clock ((c ∷ s) ∷ rest) path last_id sh =
    let longer = join path (c ∷ s) in
    elim (lookup longer sh.resource_ids) [
      | some id ↦ ensure_each clock rest longer id sh
      | none ↦ add_resource clock longer last_id (initial_value longer) sh >>= λ (id, sh').
          ensure_each clock rest longer id sh'
    ]

-- A name without a segment is a new resource each time.
unfoldable pub ensure_resource : Clock → Bytes → Shell → Result (ℕ × Shell)
ensure_resource clock name sh = ensure_each clock (pieces b'.' [] name) [] 0 sh >>= λ (id, sh').
    if id == 0 then add_resource clock name 0 (pos 0) sh' else ok (id, sh')

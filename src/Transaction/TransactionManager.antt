-- ===== src/Transaction/TransactionManager.antt =====
-- src/transaction/TransactionManager.cpp, include/transaction/TransactionManager.h. The two maps
-- own the transactions: each stands in one of them at most, and the model changes it there. `Op` has
-- the calls on the manager itself. What a client calls on a transaction, through the shared pointer
-- that `beginTransaction` and `getTransaction` hand out, is in Client; src/main.cpp reads only the id
-- through it.
pub mod Invariant
pub mod Lifecycle
pub mod History
pub mod AbortAll
pub mod Client
use transaction_manager.Shared.{
  ℕ, ◌+◌, ◌%◌, Bool, true, false, ◌&&◌, Option, none, some, List, [], ◌∷◌, length, is_some,
  if◌then◌else◌,
}
use transaction_manager.Shared.OrderedMap
use transaction_manager.Shared.OrderedMap.{OrderedMap, find, insert, erase}
use transaction_manager.Enums.{active, committed, aborted, transaction_state_eq}
use transaction_manager.Constants.{u32_mod, initial_txn_id}
use transaction_manager.Transaction.Transaction.{Transaction, set_state}
use transaction_manager.Transaction.Transaction

pub record TransactionManager : Type 0 where
  pub active_transactions : OrderedMap Transaction
  pub completed_transactions : OrderedMap Transaction
  pub next_transaction_id : ℕ
  pub committed_count : ℕ
  pub aborted_count : ℕ

unfoldable pub init : TransactionManager
init = record {
  active_transactions = [];
  completed_transactions = [];
  next_transaction_id = initial_txn_id;
  committed_count = 0;
  aborted_count = 0;
}

-- Returns the new transaction; the constructor reads the clock twice.
unfoldable pub begin_transaction : ℕ → ℕ → TransactionManager → Transaction × TransactionManager
begin_transaction start last_activity tm =
    let txn = Transaction.create tm.next_transaction_id start last_activity in
    (
      txn,
      record tm {
        active_transactions = insert txn.transaction_id txn tm.active_transactions;
        next_transaction_id = (tm.next_transaction_id + 1) % u32_mod;
      },
    )

unfoldable pub commit_transaction : ℕ → ℕ → TransactionManager → Bool × TransactionManager
commit_transaction id now tm = elim (find id tm.active_transactions) [
  | none ↦ (false, tm)
  | some txn ↦ (
    true,
    record tm {
      committed_count = (tm.committed_count + 1) % u32_mod;
      completed_transactions = insert id (set_state committed now txn) tm.completed_transactions;
      active_transactions = erase id tm.active_transactions;
    },
  )
]

unfoldable pub abort_transaction : ℕ → ℕ → TransactionManager → Bool × TransactionManager
abort_transaction id now tm = elim (find id tm.active_transactions) [
  | none ↦ (false, tm)
  | some txn ↦ (
    true,
    record tm {
      aborted_count = (tm.aborted_count + 1) % u32_mod;
      completed_transactions = insert id (set_state aborted now txn) tm.completed_transactions;
      active_transactions = erase id tm.active_transactions;
    },
  )
]

unfoldable pub get_transaction : ℕ → TransactionManager → Option Transaction
get_transaction id tm = elim (find id tm.active_transactions) [
  | some txn ↦ some txn
  | none ↦ find id tm.completed_transactions
]

unfoldable pub is_transaction_active : ℕ → TransactionManager → Bool
unfolding transaction_state_eq
is_transaction_active id tm = elim (find id tm.active_transactions) [
  | none ↦ false
  | some txn ↦ transaction_state_eq txn.state active
]

unfoldable pub get_active_transaction_ids : TransactionManager → List ℕ
get_active_transaction_ids tm = OrderedMap.keys tm.active_transactions

unfoldable pub get_active_transaction_count : TransactionManager → ℕ
get_active_transaction_count tm = length tm.active_transactions

unfoldable pub get_total_transaction_count : TransactionManager → ℕ
get_total_transaction_count tm = length tm.active_transactions + length tm.completed_transactions

unfoldable pub clear_completed_transactions : TransactionManager → TransactionManager
clear_completed_transactions tm = record tm { completed_transactions = [] }

-- The loop of `abortAllTransactions` over the ids collected before it.
unfoldable pub abort_each : List ℕ → (ℕ → ℕ) → TransactionManager → TransactionManager
abort_each [] clock tm = tm
abort_each (id ∷ ids) clock tm = abort_each ids clock (abort_transaction id (clock id) tm).1

-- `clock id` is the time that is read when the loop comes to `id`.
unfoldable pub abort_all_transactions : (ℕ → ℕ) → TransactionManager → TransactionManager
unfolding abort_each
abort_all_transactions clock tm = abort_each (get_active_transaction_ids tm) clock tm

-- The destructor.
unfoldable pub destroy_manager : (ℕ → ℕ) → TransactionManager → TransactionManager
unfolding abort_all_transactions
destroy_manager clock tm = abort_all_transactions clock tm

-- The calls that change the manager; `step` and `run` take the time at which each is made.
pub data Op : Type 0 where
  begins : Op
  commits aborts : ℕ → Op
  aborts_all : (ℕ → ℕ) → Op
  clears : Op

unfoldable pub step : ℕ → Op → TransactionManager → TransactionManager
step now begins tm = (begin_transaction now now tm).1
step now (commits id) tm = (commit_transaction id now tm).1
step now (aborts id) tm = (abort_transaction id now tm).1
step now (aborts_all clock) tm = abort_all_transactions clock tm
step now clears tm = clear_completed_transactions tm

unfoldable pub run : List (ℕ × Op) → TransactionManager → TransactionManager
run [] tm = tm
run ((now, op) ∷ ops) tm = run ops (step now op tm)

-- ===== src/Transaction/Tests.antt =====
-- test/test_transactions.cpp, and the theorems on transactions at concrete inputs.
use transaction_manager.Shared.{
  ℕ, ◌+◌, true, false, none, some, List, [], ◌∷◌, ◌≡◌, refl, ◌==◌, if◌then◌else◌, is_some, arith,
}
use transaction_manager.Shared.OrderedMap.{find, insert, erase, keys}
use transaction_manager.Enums.{committed, aborted, transaction_state_eq}
use transaction_manager.Transaction.Transaction.{
  Transaction, set_state, has_accessed, record_accessed_record, increment_read_count,
  increment_write_count, is_completed, set_error_message, IsDistinct,
  record_accessed_record-IsDistinct, set_state_lem,
}
use transaction_manager.Transaction.Transaction
use transaction_manager.Transaction.TransactionManager.{
  TransactionManager, Op, begins, commits, aborts, aborts_all, init, begin_transaction,
  commit_transaction, abort_transaction, get_transaction, is_transaction_active,
  get_active_transaction_ids, get_active_transaction_count, get_total_transaction_count,
  clear_completed_transactions, abort_each, abort_all_transactions, step, run,
}
use transaction_manager.Transaction.TransactionManager.Invariant.{
  IsValid, init-IsValid, run-IsValid,
}
use transaction_manager.Transaction.TransactionManager.Lifecycle.{
  Ends, commit_transaction-Ends, abort_transaction-Ends, begin_transaction_fresh,
}
use mathlib.Core.Option
use transaction_manager.Transaction.TransactionManager.Client.{sets, call, call_through}
use transaction_manager.Transaction.TransactionManager.History.{
  Ended, run-Ended, abort_all_transactions_lem,
}

abbrev fresh : Transaction
fresh = Transaction.create 1 100 100

-- The metrics of the first transaction of the test.
abbrev used : Transaction
used = set_error_message (101 ∷ []) (
    record_accessed_record 22 106 (
      record_accessed_record 10 105 (
        record_accessed_record 10 104
          (increment_write_count 103 (increment_read_count 102 (increment_read_count 101 fresh))))))

metrics_tests :
    (used.read_count ≡ 2)
    × (used.write_count ≡ 1)
    × (used.accessed_records ≡ 10 ∷ 22 ∷ [])
    × (used.error_message ≡ 101 ∷ [])
    × (is_completed used ≡ false)
unfolding set_error_message record_accessed_record has_accessed increment_write_count
    increment_read_count Transaction.create is_completed transaction_state_eq
metrics_tests = (refl, refl, refl, refl, refl)

-- Three transactions, of which one commits and one aborts.
abbrev calls : List (ℕ × Op)
calls = (1, begins) ∷ (2, begins) ∷ (3, begins) ∷ (4, commits 1) ∷ (5, aborts 2) ∷ []

abbrev manager : TransactionManager
manager = run calls init

manager_tests :
    (manager.committed_count ≡ 1)
    × (manager.aborted_count ≡ 1)
    × (get_active_transaction_count manager ≡ 1)
    × (get_total_transaction_count manager ≡ 3)
    × (is_transaction_active 1 manager ≡ false)
    × (is_transaction_active 3 manager ≡ true)
    × (is_some (get_transaction 2 manager) ≡ true)
    × (get_transaction 999999 manager ≡ none)
    × ((commit_transaction 999999 6 manager).0 ≡ false)
    × ((abort_all_transactions (λ _. 7) manager).aborted_count ≡ 2)
    × (get_total_transaction_count
          (clear_completed_transactions (abort_all_transactions (λ _. 7) manager))
        ≡ 0)
unfolding run step init begin_transaction commit_transaction abort_transaction get_transaction
    is_transaction_active get_active_transaction_ids get_active_transaction_count
    get_total_transaction_count clear_completed_transactions abort_each abort_all_transactions
    Transaction.create set_state is_completed transaction_state_eq find insert erase keys
manager_tests = (refl, refl, refl, refl, refl, refl, refl, refl, refl, refl, refl)

manager-IsValid : IsValid manager
unfolding run step init begin_transaction commit_transaction abort_transaction get_transaction
    is_transaction_active get_active_transaction_ids get_active_transaction_count
    get_total_transaction_count clear_completed_transactions abort_each abort_all_transactions
    Transaction.create set_state is_completed transaction_state_eq find insert erase keys
manager-IsValid = run-IsValid calls init (omega arith) init-IsValid

run-IsValid_example : IsValid manager
unfolding run step init begin_transaction commit_transaction abort_transaction get_transaction
    is_transaction_active get_active_transaction_ids get_active_transaction_count
    get_total_transaction_count clear_completed_transactions abort_each abort_all_transactions
    Transaction.create set_state is_completed transaction_state_eq find insert erase keys
run-IsValid_example = run-IsValid calls init (omega arith) init-IsValid

-- The first transaction, committed at 4.
abbrev first : Transaction
first = set_state committed 4 (Transaction.create 1 1 1)

run-Ended_example :
    let later : List (ℕ × Op) = (6, aborts 1) ∷ (7, begins) ∷ (8, aborts_all (λ _. 8)) ∷ [] in
    Ended 1 first (run later manager) × (get_transaction 1 (run later manager) ≡ some first)
unfolding run step init begin_transaction commit_transaction abort_transaction get_transaction
    is_transaction_active get_active_transaction_ids get_active_transaction_count
    get_total_transaction_count clear_completed_transactions abort_each abort_all_transactions
    Transaction.create set_state is_completed transaction_state_eq find insert erase keys
run-Ended_example =
    run-Ended ((6, aborts 1) ∷ (7, begins) ∷ (8, aborts_all (λ _. 8)) ∷ []) 1 first manager
      (omega arith) (ground arith, (ground arith, (ground arith, tt))) manager-IsValid refl

commit_transaction-Ends_example : Ends committed 3 9 manager (commit_transaction 3 9 manager)
commit_transaction-Ends_example = commit_transaction-Ends 3 9 manager

abort_transaction-Ends_example : Ends aborted 3 9 manager (abort_transaction 3 9 manager)
abort_transaction-Ends_example = abort_transaction-Ends 3 9 manager

begin_transaction_fresh_example :
    let (txn, tm') = begin_transaction 9 9 manager in
    (get_transaction txn.transaction_id manager ≡ none)
    × (is_transaction_active txn.transaction_id tm' ≡ true)
    × ((k : ℕ)
        → get_transaction k tm'
          ≡ (if txn.transaction_id == k then some txn else get_transaction k manager))
begin_transaction_fresh_example = begin_transaction_fresh 9 9 manager manager-IsValid

abort_all_transactions_lem_example :
    let tm' = abort_all_transactions (λ _. 9) manager in
    (get_active_transaction_count tm' ≡ 0)
    × (tm'.committed_count ≡ manager.committed_count)
    × (tm'.aborted_count ≡ manager.aborted_count + get_active_transaction_count manager)
abort_all_transactions_lem_example = abort_all_transactions_lem (λ _. 9) manager manager-IsValid

-- A new transaction, read through the pointer that `beginTransaction` returned.
abbrev begun : TransactionManager
begun = run ((1, begins) ∷ []) init

-- `setState` through the pointer bypasses the manager: it counts the transaction as active still.
client_tests :
    (is_transaction_active 1 (call_through 1 2 (sets committed) begun) ≡ false)
    × (get_active_transaction_count (call_through 1 2 (sets committed) begun) ≡ 1)
    × ((call_through 1 2 (sets committed) begun).committed_count ≡ 0)
unfolding call_through call set_state transaction_state_eq run step init begin_transaction
    Transaction.create is_transaction_active get_active_transaction_count find insert
client_tests = (refl, refl, refl)

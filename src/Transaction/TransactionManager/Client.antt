-- ===== src/Transaction/TransactionManager/Client.antt =====
-- The calls of a client on a transaction, through the shared pointer that `beginTransaction` and
-- `getTransaction` hand out. The object is the one that the map of the manager owns, so the call
-- shows there; once the history is cleared it shows in no map.
use transaction_manager.Shared.{ℕ, Bool, true, false, Option, none, some, Bytes}
use mathlib.Core.Option
use transaction_manager.Shared.OrderedMap.{OrderedMap, find, insert}
use transaction_manager.Enums.{TransactionState}
use transaction_manager.Transaction.Transaction.{
  Transaction, set_state, record_accessed_record, increment_read_count, increment_write_count,
  set_error_message,
}
use transaction_manager.Transaction.TransactionManager.{TransactionManager}

-- The public calls of include/transaction/Transaction.h that change a transaction.
pub data Call : Type 0 where
  accesses : ℕ → Call
  reads writes : Call
  fails : Bytes → Call
  sets : TransactionState → Call

unfoldable pub call : ℕ → Call → Transaction → Transaction
call now (accesses record_id) t = record_accessed_record record_id now t
call now reads t = increment_read_count now t
call now writes t = increment_write_count now t
call now (fails message) t = set_error_message message t
call now (sets state) t = set_state state now t

-- The call on the transaction of this id, in the map that owns it.
unfoldable pub call_through : ℕ → ℕ → Call → TransactionManager → TransactionManager
unfolding call
call_through id now c tm = elim (find id tm.active_transactions) [
  | some t ↦ record tm { active_transactions = insert id (call now c t) tm.active_transactions }
  | none ↦ elim (find id tm.completed_transactions) [
    | some t ↦ record tm {
      completed_transactions = insert id (call now c t) tm.completed_transactions;
    }
    | none ↦ tm
  ]
]

-- All calls but `setState`.
abbrev pub keeps_state : Call → Bool
keeps_state (sets _) = false
keeps_state _ = true

-- ===== src/Recovery/RecoveryManager.antt =====
-- src/recovery/RecoveryManager.cpp, include/recovery/RecoveryManager.h. The log manager is shared
-- with the client: the functions take its state and return it. Each ABORT record of `undo` is made
-- with a reading of the clock, `clock txn`.
pub mod Analysis
pub mod Restart
use transaction_manager.Shared.{
  ℕ, Bool, true, false, ◌||◌, Option, none, some, List, [], ◌∷◌, ◌++◌, if◌then◌else◌, Result, ok,
  raise,
}
use transaction_manager.Shared.OrderedSet
use transaction_manager.Shared.OrderedSet.{OrderedSet, contains}
use transaction_manager.Shared.Text.{ℤ}
use transaction_manager.Enums.{RecoveryState, analysis, complete}
use transaction_manager.Recovery.LogRecord.{
  LogType, LogRecord, begin, insert, update, delete, commit, abort, checkpoint,
}
use transaction_manager.Recovery.LogManager.{LogManager, write_log, flush_logs, read_logs}

pub record RecoveryManager : Type 0 where
  pub recovery_state : RecoveryState
  pub committed_txns : OrderedSet
  pub incomplete_txns : OrderedSet
  pub redo_records : List LogRecord
  pub undo_records : List LogRecord

unfoldable pub create : RecoveryManager
create = record {
  recovery_state = analysis;
  committed_txns = [];
  incomplete_txns = [];
  redo_records = [];
  undo_records = [];
}

unfoldable pub is_data_modification_type : LogType → Bool
is_data_modification_type insert = true
is_data_modification_type update = true
is_data_modification_type delete = true
is_data_modification_type _ = false

-- The body of the loop of `analyze`, on the committed and the active transactions.
unfoldable pub analyze_record : LogType → ℕ → OrderedSet × OrderedSet → OrderedSet × OrderedSet
analyze_record begin txn (done, active) = (done, OrderedSet.insert txn active)
analyze_record commit txn (done, active) = (OrderedSet.insert txn done, OrderedSet.erase txn active)
analyze_record abort txn (done, active) = (done, OrderedSet.erase txn active)
analyze_record _ txn sets = sets

unfoldable pub analyze_each : List LogRecord → OrderedSet × OrderedSet → OrderedSet × OrderedSet
analyze_each [] sets = sets
analyze_each (r ∷ rs) sets = analyze_each rs (analyze_record r.log_type r.transaction_id sets)

-- The sets are cleared first; if the log cannot be read, that is all that has changed.
unfoldable pub analyze : LogManager → RecoveryManager → Result (Unit {0}) × RecoveryManager
analyze log m = elim (read_logs log) [
  | raise e ↦ (raise e, record m { committed_txns = []; incomplete_txns = [] })
  | ok logs ↦
      let (done, active) = analyze_each logs ([], []) in
      (ok tt, record m { committed_txns = done; incomplete_txns = active })
]

-- The loop of `redo`.
unfoldable pub redo_each : OrderedSet → List LogRecord → List LogRecord
redo_each done [] = []
redo_each done (r ∷ rs) =
    let rest = redo_each done rs in
    if contains r.transaction_id done
    then (if is_data_modification_type r.log_type then r ∷ rest else rest)
    else rest

unfoldable pub redo : LogManager → RecoveryManager → Result (Unit {0}) × RecoveryManager
redo log m = elim (read_logs log) [
  | raise e ↦ (raise e, record m { redo_records = [] })
  | ok logs ↦ (ok tt, record m { redo_records = redo_each m.committed_txns logs })
]

unfoldable pub abort_record : (ℕ → ℤ) → ℕ → LogRecord
abort_record clock txn = record { transaction_id = txn; log_type = abort; timestamp = clock txn }

-- The loop of `undo`; a set is iterated in ascending order, so the sort changes nothing.
unfoldable pub undo_each :
    (ℕ → ℤ) → List ℕ → LogManager × List LogRecord → LogManager × List LogRecord
undo_each clock [] (log, undone) = (log, undone)
undo_each clock (txn ∷ txns) (log, undone) =
    let r = abort_record clock txn in
    undo_each clock txns (write_log (some r) log, undone ++ r ∷ [])

abbrev flush_unless_empty : List ℕ → LogManager → LogManager
flush_unless_empty [] log = log
flush_unless_empty (_ ∷ _) log = flush_logs log

unfoldable pub undo : (ℕ → ℤ) → LogManager → RecoveryManager → LogManager × RecoveryManager
undo clock log m =
    let (log', undone) = undo_each clock m.incomplete_txns (log, []) in
    (flush_unless_empty m.incomplete_txns log', record m { undo_records = undone })

-- The states between the phases; an exception leaves the state of the phase that raised it.
after_redo :
    (ℕ → ℤ)
    → LogManager
    → Result (Unit {0}) × RecoveryManager
    → Result (Unit {0}) × LogManager × RecoveryManager
after_redo clock log (raise e, m) = (raise e, log, m)
after_redo clock log (ok _, m) =
    let (log', m') = undo clock log (record m { recovery_state = RecoveryState.undo }) in
    (ok tt, log', record m' { recovery_state = complete })

after_analyze :
    (ℕ → ℤ)
    → LogManager
    → Result (Unit {0}) × RecoveryManager
    → Result (Unit {0}) × LogManager × RecoveryManager
after_analyze clock log (raise e, m) = (raise e, log, m)
after_analyze clock log (ok _, m) =
    after_redo clock log (redo log (record m { recovery_state = RecoveryState.redo }))

unfoldable pub perform_recovery :
    (ℕ → ℤ) → LogManager → RecoveryManager → Result (Unit {0}) × LogManager × RecoveryManager
unfolding after_analyze after_redo
perform_recovery clock log m =
    after_analyze clock log (analyze log (record m { recovery_state = analysis }))

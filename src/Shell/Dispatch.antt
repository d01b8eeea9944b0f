-- ===== src/Shell/Dispatch.antt =====
-- src/main.cpp: one function for each command, on the words of a line, and the loop over the lines.
-- `none` means that the fuel of `process_pending` ran out.
use transaction_manager.Shared.{
  ℕ, true, false, ◌||◌, Option, none, some, List, [], ◌∷◌, ◌++◌, Bytes, length, if◌then◌else◌,
  Result, ok, ◌>>=◌,
}
use transaction_manager.Shared.OrderedMap
use transaction_manager.Shared.OrderedMap.{OrderedMap}
use transaction_manager.Shared.OrderedSet.{OrderedSet}
use transaction_manager.Shared.Text.{codes, str_eq}
use transaction_manager.Transaction.TransactionManager.{
  TransactionManager, begin_transaction, commit_transaction, abort_transaction,
  abort_all_transactions, get_active_transaction_ids, get_active_transaction_count,
}
use transaction_manager.Concurrency.LockManager.State.{LockManager}
use transaction_manager.Concurrency.LockManager.Release.{complete_transaction}
use transaction_manager.Recovery.LogRecord.{LogType, begin, commit, abort, checkpoint}
use transaction_manager.Recovery.LogManager.{LogManager, flush_logs}
use transaction_manager.Recovery.RecoveryManager.{RecoveryManager, perform_recovery}
use transaction_manager.Recovery.RecoveryManager
use transaction_manager.Shell.State.{
  Shell, Command, Clock, Event, started, already_exists, not_found, not_active, committed, aborted,
  invalid, unknown, shown, status, checkpoint_written, recovered, lookup, store, ensure_resource,
}
use transaction_manager.Shell.Commands.{
  say, log, current_value, execute_command, has_pending_for_txn, process_pending,
}

-- The state once a transaction with a new label has begun.
unfoldable pub begun : Clock → Bytes → Shell → Shell
begun clock label sh =
    let now = clock.system sh.tm.next_transaction_id in
    let (txn, tm') = begin_transaction now now sh.tm in
    log clock txn.transaction_id begin
      (record sh { tm = tm'; txn_ids = store label txn.transaction_id sh.txn_ids })

unfoldable pub begin_command : Clock → Command → Shell → Shell
begin_command clock cmd sh =
    if str_eq cmd.txn_label []
    then say (invalid cmd.op) sh
    else elim (lookup cmd.txn_label sh.txn_ids) [
      | some _ ↦ say (already_exists cmd.txn_label) sh
      | none ↦ say (started cmd.txn_label) (begun clock cmd.txn_label sh)
    ]

abbrev pub pend : Command → Shell → Shell
pend cmd sh = record sh { pending = sh.pending ++ cmd ∷ [] }

-- READ and WRITE.
unfoldable pub access_command : Clock → Command → Shell → Result Shell
access_command clock cmd sh =
    if str_eq cmd.txn_label [] || str_eq cmd.resource_name []
    then ok (say (invalid cmd.op) sh)
    else elim (lookup cmd.txn_label sh.txn_ids) [
      | none ↦ ok (say (not_found cmd.txn_label) sh)
      | some _ ↦
          if has_pending_for_txn cmd.txn_label sh.pending
          then ok (pend cmd sh)
          else (execute_command clock cmd false sh >>= λ (executed, sh').
              if executed then ok sh' else ok (pend cmd sh'))
    ]

-- The state once the manager has ended the transaction, which left `tm'`.
unfoldable pub ended : Clock → ℕ → LogType → TransactionManager → Shell → Shell
ended clock txn t tm' sh = log clock txn t (record sh {
  tm = tm';
  lock_mgr = (complete_transaction txn sh.lock_mgr).1;
  txn_held_resources = OrderedMap.erase txn sh.txn_held_resources;
})

-- What COMMIT and ABORT do once the manager has ended the transaction.
unfoldable pub finish_transaction :
    Clock → ℕ → LogType → Event → TransactionManager → Shell → Option (Result Shell)
finish_transaction clock txn t event tm' sh =
    process_pending clock (say event (ended clock txn t tm' sh))

unfoldable pub commit_command : Clock → Command → Shell → Option (Result Shell)
commit_command clock cmd sh = elim (lookup cmd.txn_label sh.txn_ids) [
  | none ↦ some (ok (say (not_found cmd.txn_label) sh))
  | some txn ↦
      let (done, tm') = commit_transaction txn (clock.system txn) sh.tm in
      elim done [
        | true ↦ finish_transaction clock txn commit (committed cmd.txn_label) tm' sh
        | false ↦ some (ok (say (not_active cmd.txn_label) sh))
      ]
]

unfoldable pub abort_command : Clock → Command → Shell → Option (Result Shell)
abort_command clock cmd sh = elim (lookup cmd.txn_label sh.txn_ids) [
  | none ↦ some (ok (say (not_found cmd.txn_label) sh))
  | some txn ↦
      let (done, tm') = abort_transaction txn (clock.system txn) sh.tm in
      elim done [
        | true ↦ finish_transaction clock txn abort (aborted cmd.txn_label) tm' sh
        | false ↦ some (ok (say (not_active cmd.txn_label) sh))
      ]
]

unfoldable pub show_command : Clock → Command → Shell → Result Shell
show_command clock cmd sh =
    if str_eq cmd.resource_name []
    then ok (say (invalid cmd.op) sh)
    else (ensure_resource clock cmd.resource_name sh >>= λ (id, sh').
        current_value id sh' >>= λ v. ok (say (shown cmd.resource_name v) sh'))

unfoldable pub status_command : Shell → Shell
status_command sh =
    say
      (status (get_active_transaction_count sh.tm) (length sh.pending) sh.tm.committed_count
        sh.tm.aborted_count)
      sh

unfoldable pub checkpoint_command : Clock → Shell → Shell
checkpoint_command clock sh =
    let logged = log clock 0 checkpoint sh in
    say checkpoint_written (record logged { log_mgr = flush_logs logged.log_mgr })

-- The loop of RECOVER over the transactions that were active.
unfoldable pub complete_each : List ℕ → LockManager → LockManager
complete_each [] m = m
complete_each (txn ∷ txns) m = complete_each txns (complete_transaction txn m).1

unfoldable pub release_held : List ℕ → OrderedMap OrderedSet → OrderedMap OrderedSet
release_held [] held = held
release_held (txn ∷ txns) held = release_held txns (OrderedMap.erase txn held)

-- The state once `performRecovery` has returned with `log_mgr'` and `m`.
unfoldable pub after_recovery : Clock → LogManager → RecoveryManager → Shell → Shell
after_recovery clock log_mgr' m sh =
    let ids = get_active_transaction_ids sh.tm in
    say (recovered (length m.redo_records) (length m.undo_records)) (record sh {
      tm = abort_all_transactions clock.system sh.tm;
      lock_mgr = complete_each ids sh.lock_mgr;
      txn_held_resources = release_held ids sh.txn_held_resources;
      pending = [];
      log_mgr = log_mgr';
    })

unfoldable pub recover_command : Clock → Shell → Result Shell
recover_command clock sh =
    let (result, log_mgr', m) =
      perform_recovery clock.seconds (flush_logs sh.log_mgr) RecoveryManager.create in
    result >>= λ _. ok (after_recovery clock log_mgr' m sh)

-- The body of the loop over the lines, on any command but HELP, which changes nothing, and EXIT.
unfoldable pub execute_line : Clock → Command → Shell → Option (Result Shell)
execute_line clock cmd sh =
    if str_eq cmd.op (codes "BEGIN")
    then some (ok (begin_command clock cmd sh))
    else if str_eq cmd.op (codes "READ") || str_eq cmd.op (codes "WRITE")
    then some (access_command clock cmd sh)
    else if str_eq cmd.op (codes "COMMIT")
    then commit_command clock cmd sh
    else if str_eq cmd.op (codes "ABORT")
    then abort_command clock cmd sh
    else if str_eq cmd.op (codes "SHOW")
    then some (show_command clock cmd sh)
    else if str_eq cmd.op (codes "STATUS")
    then some (ok (status_command sh))
    else if str_eq cmd.op (codes "CHECKPOINT")
    then some (ok (checkpoint_command clock sh))
    else if str_eq cmd.op (codes "RECOVER")
    then some (recover_command clock sh)
    else some (ok (say (unknown cmd.op) sh))

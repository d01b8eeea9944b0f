-- ===== src/Shell/Recover.antt =====
-- The command RECOVER as a whole.
use transaction_manager.Shared.{ℕ, ◌+◌, List, [], ok, ◌≡◌, refl}
use transaction_manager.Shared.Decimal.{FitsInt64}
use transaction_manager.Transaction.TransactionManager.{get_active_transaction_count}
use transaction_manager.Transaction.TransactionManager.Invariant.{IsValid}
use transaction_manager.Transaction.TransactionManager.History.{abort_all_transactions_lem}
use transaction_manager.Recovery.LogRecord.{LogRecord}
use transaction_manager.Recovery.LogManager.{flush_logs}
use transaction_manager.Recovery.LogManager.Contents.{Holds}
use transaction_manager.Recovery.RecoveryManager
use transaction_manager.Recovery.RecoveryManager.{perform_recovery}
use transaction_manager.Recovery.RecoveryManager.Analysis.{with_aborts}
use transaction_manager.Recovery.RecoveryManager.Restart.{
  IsDurable, flush_logs-IsDurable, perform_recovery-Recovered,
}
use transaction_manager.Shell.State.{Shell, Clock}
use transaction_manager.Shell.Commands.{say}
use transaction_manager.Shell.Dispatch.{after_recovery, recover_command}

-- On an open log of legal records and a valid manager, RECOVER throws nothing; it leaves no active
-- transaction and no pending command, commits nothing and counts each active transaction as
-- aborted, and leaves a durable log of the old records followed by the aborts of recovery.
pub recover_command_lem :
    (clock : Clock) (rs : List LogRecord) (sh : Shell)
    → ((txn : ℕ) → FitsInt64 (clock.seconds txn))
    → Holds rs sh.log_mgr
    → IsValid sh.tm
    → (sh' : Shell) × (recover_command clock sh ≡ ok sh')
      × (get_active_transaction_count sh'.tm ≡ 0)
      × (sh'.pending ≡ [])
      × (sh'.tm.committed_count ≡ sh.tm.committed_count)
      × (sh'.tm.aborted_count ≡ sh.tm.aborted_count + get_active_transaction_count sh.tm)
      × IsDurable (with_aborts clock.seconds rs) sh'.log_mgr
unfolding recover_command after_recovery say
recover_command_lem clock rs sh fits h v =
    let d = flush_logs-IsDurable rs sh.log_mgr h in
    let r =
      perform_recovery-Recovered clock.seconds fits rs (flush_logs sh.log_mgr)
        RecoveryManager.create d in
    let (none_active, same, counted) = abort_all_transactions_lem clock.system sh.tm v in
    let done = perform_recovery clock.seconds (flush_logs sh.log_mgr) RecoveryManager.create in
    (
      after_recovery clock done.1 done.2 sh,
      rw r.succeeds refl,
      none_active,
      refl,
      same,
      counted,
      r.log,
    )

-- ===== src/Shell/Consistency/Run.antt =====
-- The agreement of log, transaction manager and lock manager at the end of `main`.
use transaction_manager.Shared.{
  ℕ, ap, Bool, true, ◌+◌, ◌<◌, Option, some, [], Bytes, length, ok, ◌≡◌, ◌∙◌, Result,
}
use transaction_manager.Shared.OrderedSet.{contains}
use transaction_manager.Shared.Text.{pieces}
use transaction_manager.Constants.{u32_mod}
use transaction_manager.Enums.{active, committed}
use transaction_manager.Transaction.TransactionManager.{get_transaction}
use transaction_manager.Transaction.TransactionManager.AbortAll.{is_state, is_ended}
use transaction_manager.Concurrency.LockManager.State.{is_complete}
use transaction_manager.Recovery.LogManager.{LogManager, newline, create, destroy, flush_logs}
use transaction_manager.Recovery.LogManager.Contents.{Holds, flush_logs-Holds, create-destroy}
use transaction_manager.Recovery.RecoveryManager.{RecoveryManager, perform_recovery}
use transaction_manager.Recovery.RecoveryManager.Restart.{perform_recovery-Recovered}
use transaction_manager.Recovery.RecoveryManager.Analysis.{analysis_exact}
use transaction_manager.Shell.State.{Shell, Clock}
use transaction_manager.Shell.Input.{choose, leave, at_end, run_input, run_main}
use transaction_manager.Shell.Rules.{Fits}
use transaction_manager.Shell.Program.{run_main_rule}
use transaction_manager.Shell.Consistency.Kept.{
  IsConsistent, IsConsistent-rules, start-IsConsistent,
}

-- What a recovery that is run on its log reports of the end of a run: the transactions that the
-- manager says are committed, and those that it says are active; and the lock manager has completed
-- exactly the transactions that have ended.
pub record Reported (recovery : RecoveryManager) (sh : Shell) : Type 0 where
  pub committed_ids :
      (k : ℕ) → contains k recovery.committed_txns ≡ is_state committed (get_transaction k sh.tm)
  pub incomplete_ids :
      (k : ℕ) → contains k recovery.incomplete_txns ≡ is_state active (get_transaction k sh.tm)
  pub completed_ids : (k : ℕ) → is_complete k sh.lock_mgr ≡ is_ended (get_transaction k sh.tm)

-- A recovery on the log file that a run of `main` has left, by a new log manager.
abbrev pub recover_left :
    Clock
    → (ℕ → Bool)
    → (ℕ → ℕ)
    → RecoveryManager
    → Shell
    → Result (Unit {0}) × LogManager × RecoveryManager
recover_left later can_open spill m last =
    perform_recovery later.seconds (create can_open spill last.log_mgr.disk) m

-- `main` on a log without records: if the input has fewer than 2^32 - 1 lines and the clock stays
-- within 64 bits, `main` ends without an exception, and leaves a log file from which, where it can
-- be opened again, a new log manager recovers without an exception, at a clock within 64 bits too.
-- This recovery reports as committed exactly the transactions that the manager had committed by the
-- end of its loop, and as incomplete exactly those that were active then; and exactly the ended
-- ones were complete in the lock manager.
pub run_main_agrees :
    (clock : ℕ → Clock) (place : ℕ → ℕ) (log_mgr : LogManager) (file : Option Bytes)
    (standard : Bytes) (later : Clock) (can_open : ℕ → Bool) (spill : ℕ → ℕ) (m : RecoveryManager)
    → ((n : ℕ) → Fits (clock n))
    → Holds [] log_mgr
    → length (pieces newline [] (choose file standard)) + 1 < u32_mod
    → Fits later
    → can_open 0 ≡ true
    → (sh : Shell) × (run_input clock place log_mgr file standard ≡ some (ok sh))
      × (run_main clock place log_mgr file standard
          ≡ some (ok (leave (at_end clock file standard) sh)))
      × ((recover_left later can_open spill m (leave (at_end clock file standard) sh)).0 ≡ ok tt)
      × Reported (recover_left later can_open spill m (leave (at_end clock file standard) sh)).2 sh
unfolding leave
run_main_agrees clock place log_mgr file standard later can_open spill m fits h room fits' opens =
    let (sh, looped, e, p) =
      run_main_rule IsConsistent IsConsistent-rules clock place log_mgr file standard fits
        (start-IsConsistent place log_mgr h) in
    let a = p.agrees room in
    let rs = p.log_records in
    let (holds, readable) =
      create-destroy can_open spill rs (flush_logs sh.log_mgr) opens
        (flush_logs-Holds rs sh.log_mgr p.sound.logged) in
    let again = create can_open spill (destroy (flush_logs sh.log_mgr)).disk in
    let r =
      perform_recovery-Recovered later.seconds fits' rs again m
        (record { holds = holds; readable = readable }) in
    (
      sh,
      looped,
      e,
      r.succeeds,
      record {
        committed_ids =
            λ k. ap (contains k) r.committed ∙ (analysis_exact k rs).0 ∙ a.tells.committed_in k;
        incomplete_ids =
            λ k. ap (contains k) r.incomplete ∙ (analysis_exact k rs).1 ∙ a.tells.open_in k;
        completed_ids = a.completes;
      },
    )

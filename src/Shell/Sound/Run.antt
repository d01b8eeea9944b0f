-- ===== src/Shell/Sound/Run.antt =====
-- A whole run: what it keeps of the log and the store.
use transaction_manager.Shared.{ℕ, Option, some, List, [], ◌∷◌, ◌++◌, Bytes, ok, ◌≡◌}
use transaction_manager.Concurrency.LockManager.Request.{request_lock}
use transaction_manager.Transaction.TransactionManager.{commit_transaction, abort_transaction}
use transaction_manager.Transaction.TransactionManager.Invariant.{next-abort}
use transaction_manager.Recovery.LogRecord.{LogRecord, begin, update, commit, abort, checkpoint}
use transaction_manager.Recovery.LogManager.{LogManager}
use transaction_manager.Recovery.LogManager.Contents.{Holds}
use transaction_manager.Recovery.RecoveryManager.Analysis.{with_aborts}
use transaction_manager.Shell.State.{Shell, Clock}
use transaction_manager.Shell.Dispatch.{recover_command}
use transaction_manager.Shell.Input.{leave, at_end, run_input, run_main}
use transaction_manager.Shell.Rules.{Returns, Fits, KeepsResources}
use transaction_manager.Shell.AccessRules.{FitsCommand, KeepsAccess}
use transaction_manager.Shell.CommandRules.{KeepsCommands}
use transaction_manager.Shell.Program.{run_main_rule}
use transaction_manager.Shell.Sound.{
  IsSound, known_id, entry, resource-IsSound, write-IsSound, begun-IsSound, ended-IsSound,
  commit_next, checkpoint-IsSound, recover-IsSound, quiet-IsSound, pend-IsSound, ask-IsSound,
  start-IsSound,
}

-- Sound with some log.
abbrev pub IsSomeSound : Shell → Type 0
IsSomeSound sh = (rs : List LogRecord) × IsSound rs sh

sound_resources : KeepsResources IsSomeSound
sound_resources = record {
  quiet = λ output held sh (rs, s). (rs, quiet-IsSound output held rs sh s);
  resource =
      λ path last_id r sh _ value (rs, s). (rs, resource-IsSound path last_id r rs sh value s);
}

sound_accesses : KeepsAccess FitsCommand IsSomeSound
sound_accesses = record {
  resources = sound_resources;
  small = λ cmd small. small;
  readable = λ sh (rs, s). s.values;
  waiting = λ sh (rs, s). s.waiting;
  pend = λ cmds sh small (rs, s). (rs, pend-IsSound cmds rs sh small s);
  ask = λ label txn id t sh _ (rs, s).
      (rs, ask-IsSound (request_lock txn id t sh.lock_mgr).1 rs sh s);
  write = λ clock cmd txn id sh fits small e _ (rs, s). (
    rs ++ entry clock txn update ∷ [],
    write-IsSound clock cmd.txn_label txn id cmd.value rs sh fits small e s,
  );
}

recovered_well :
    (clock : Clock) (sh : Shell)
    → Fits clock
    → IsSomeSound sh
    → Returns IsSomeSound (recover_command clock sh)
recovered_well clock sh fits (rs, s) =
    let (e, after) = recover-IsSound clock rs sh fits s in
    rw e (with_aborts clock.seconds rs, after)

pub sound_rules : KeepsCommands FitsCommand (λ n. IsSomeSound)
sound_rules = record {
  accesses = λ n. sound_accesses;
  more = λ n sh s. s;
  begins = λ n clock label sh fits _ (rs, s). (
    rs ++ entry clock sh.tm.next_transaction_id begin ∷ [],
    begun-IsSound clock label rs sh fits s,
  );
  commits = λ n clock label txn sh fits e _ (rs, s). (
    rs ++ entry clock txn commit ∷ [],
    ended-IsSound clock txn commit (commit_transaction txn (clock.system txn) sh.tm).1 rs sh fits
        (known_id label txn rs sh s e) (commit_next txn (clock.system txn) sh.tm) s,
  );
  aborts = λ n clock label txn sh fits e _ (rs, s). (
    rs ++ entry clock txn abort ∷ [],
    ended-IsSound clock txn abort (abort_transaction txn (clock.system txn) sh.tm).1 rs sh fits
        (known_id label txn rs sh s e) (next-abort txn (clock.system txn) sh.tm) s,
  );
  checkpoints = λ n clock sh fits (rs, s).
      (rs ++ entry clock 0 checkpoint ∷ [], checkpoint-IsSound clock rs sh fits s);
  recovers = λ n. recovered_well;
}

-- Whatever the input, `main` ends and throws nothing, and at the end of its loop the log still holds
-- legal records only, and the store values of 32 bits in decimal; this is if the log is open at the
-- start, holds legal records, and the clock stays within 64 bits.
pub run_main_returns :
    (clock : ℕ → Clock) (place : ℕ → ℕ) (log_mgr : LogManager) (rs : List LogRecord)
    (file : Option Bytes) (standard : Bytes)
    → ((n : ℕ) → Fits (clock n))
    → Holds rs log_mgr
    → (sh : Shell) × (run_input clock place log_mgr file standard ≡ some (ok sh))
      × (run_main clock place log_mgr file standard
          ≡ some (ok (leave (at_end clock file standard) sh)))
      × IsSomeSound sh
run_main_returns clock place log_mgr rs file standard fits h =
    run_main_rule (λ n. IsSomeSound) sound_rules clock place log_mgr file standard fits
      (rs, start-IsSound place log_mgr rs h)

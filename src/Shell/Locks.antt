-- ===== src/Shell/Locks.antt =====
-- What a whole run keeps of the lock manager: `main` changes it by the calls of its interface only.
use transaction_manager.Shared.{
  ℕ, ◌==◌, ◌<◌, ◌+◌, Bool, true, Option, some, List, [], ◌∷◌, Bytes, length, Result, ok, raise, ◌≡◌,
  ◌>>=◌, ◌||◌, ◌&&◌, refl, ap, sym, ◌∙◌, inl, inr, Bool-cases, if◌then◌else◌, All, arith,
}
use transaction_manager.Concurrency.Lock.{Lock}
use transaction_manager.Concurrency.LockManager.State.{
  LockManager, at, compatible_with_others, has_lock,
}
use transaction_manager.Concurrency.LockManager.Release.{Op, parents, requests, completes, step}
use transaction_manager.Concurrency.LockManager.Compatibility.{
  IsSafe, step-IsSafe, init-IsSafe, Coherent,
}
use transaction_manager.Transaction.TransactionManager.{get_active_transaction_ids}
use transaction_manager.Recovery.LogManager.{LogManager, flush_logs}
use transaction_manager.Recovery.LogManager.Contents.{Holds}
use transaction_manager.Recovery.LogRecord.{LogRecord}
use transaction_manager.Recovery.RecoveryManager
use transaction_manager.Recovery.RecoveryManager.{perform_recovery}
use transaction_manager.Shell.State.{Shell, Command, Clock, start, with_resource}
use transaction_manager.Shell.Commands.{log, say}
use transaction_manager.Shell.Dispatch.{
  begun, ended, complete_each, after_recovery, recover_command,
}
use transaction_manager.Shell.Input.{leave, at_end, run_lines, run_input, run_main}
use transaction_manager.Shell.Rules.{Returns, Fits, KeepsResources}
use transaction_manager.Shell.AccessRules.{FitsCommand, KeepsAccess}
use transaction_manager.Shell.CommandRules.{KeepsCommands}
use transaction_manager.Shell.Program.{All-FitsCommand, run_lines_rule, run_main_rule}
use transaction_manager.Shell.Consistency.{Agrees}
use transaction_manager.Shell.Consistency.Kept.{IsConsistent, IsConsistent-rules}
use transaction_manager.Constants.{u32_mod}
use transaction_manager.Concurrency.LockManager.Ends.{keeps, step-keeps}
use transaction_manager.Transaction.TransactionManager.AbortAll.{is_ended}
use transaction_manager.Transaction.TransactionManager.{get_transaction}
use transaction_manager.Shell.Sound.{IsSound, start-IsSound}
use transaction_manager.Shell.Sound.Run.{IsSomeSound, sound_rules}

-- Whatever each call of the lock manager keeps, beside what the commands keep.
module _ (C : Command → Type 0) (P : ℕ → Shell → Type 0) (Q : LockManager → Type 0)
    (rules : KeepsCommands C P) (kept : (op : Op) (m : LockManager) → Q m → Q (step op m)) where
  abbrev pub Both : ℕ → Shell → Type 0
  Both n sh = P n sh × Q sh.lock_mgr

  resource_kept :
      (path : Bytes) (last_id : ℕ) (sh : Shell)
      → Q sh.lock_mgr
      → Q (
          if last_id == 0
          then sh.lock_mgr
          else step (parents sh.next_resource_id last_id) sh.lock_mgr)
  resource_kept path last_id sh q = elim (Bool-cases (last_id == 0)) [
    | inl e ↦ rw e q
    | inr e ↦ rw e (kept (parents sh.next_resource_id last_id) sh.lock_mgr q)
  ]

  complete_each_kept : (ids : List ℕ) (m : LockManager) → Q m → Q (complete_each ids m)
  unfolding complete_each step
  complete_each_kept [] m q = q
  complete_each_kept (id ∷ ids) m q = complete_each_kept ids _ (kept (completes id) m q)

  bound_kept :
      {A : Type 0} (n : ℕ) (x : Result A) (sh : Shell)
      → Q sh.lock_mgr
      → Returns (P n) (x >>= λ _. ok sh)
      → Returns (Both n) (x >>= λ _. ok sh)
  bound_kept n (ok a) sh q p = (p, q)
  bound_kept n (raise e) sh q p = p

  recovered_kept :
      (n : ℕ) (clock : Clock) (sh : Shell)
      → Q sh.lock_mgr
      → Returns (P n) (recover_command clock sh)
      → Returns (Both n) (recover_command clock sh)
  unfolding recover_command after_recovery say
  recovered_kept n clock sh q r =
      bound_kept n (perform_recovery clock.seconds (flush_logs sh.log_mgr) RecoveryManager.create).0
        _ (complete_each_kept (get_active_transaction_ids sh.tm) sh.lock_mgr q) r

  Both-resources : (n : ℕ) → KeepsResources (Both n)
  Both-resources n = record {
    quiet = λ output held sh (p, q). ((rules.accesses n).resources.quiet output held sh p, q);
    resource = λ path last_id r sh own_id value (p, q). (
      (rules.accesses n).resources.resource path last_id r sh own_id value p,
      unfold with_resource step in resource_kept path last_id sh q,
    );
  }

  Both-accesses : (n : ℕ) → KeepsAccess C (Both n)
  Both-accesses n = record {
    resources = Both-resources n;
    small = (rules.accesses 0).small;
    readable = λ sh (p, q). (rules.accesses n).readable sh p;
    waiting = λ sh (p, q). (rules.accesses n).waiting sh p;
    pend = λ cmds sh small (p, q). ((rules.accesses n).pend cmds sh small p, q);
    ask = λ label txn id t sh active (p, q). (
      (rules.accesses n).ask label txn id t sh active p,
      unfold step in kept (requests txn id t) sh.lock_mgr q,
    );
    write = λ clock cmd txn id sh fits small active covered (p, q).
        ((rules.accesses n).write clock cmd txn id sh fits small active covered p, unfold log in q);
  }

  pub lock_rules : KeepsCommands C Both
  lock_rules = record {
    accesses = Both-accesses;
    more = λ n sh (p, q). (rules.more n sh p, q);
    begins = λ n clock label sh fits new (p, q).
        (rules.begins n clock label sh fits new p, unfold begun log in q);
    commits = λ n clock label txn sh fits e done (p, q). (
      rules.commits n clock label txn sh fits e done p,
      unfold ended log step in kept (completes txn) sh.lock_mgr q,
    );
    aborts = λ n clock label txn sh fits e done (p, q). (
      rules.aborts n clock label txn sh fits e done p,
      unfold ended log step in kept (completes txn) sh.lock_mgr q,
    );
    checkpoints = λ n clock sh fits (p, q). (rules.checkpoints n clock sh fits p, unfold log in q);
    recovers =
        λ n clock sh fits (p, q). recovered_kept n clock sh q (rules.recovers n clock sh fits p);
  }

-- No lock of the set conflicts with a lock of another transaction.
unfoldable pub keeps_apart : List Lock → Bool
keeps_apart [] = true
keeps_apart (l ∷ ls) = compatible_with_others l.transaction_id l.lock_type ls && keeps_apart ls

Coherent-keeps_apart : (ls : List Lock) → Coherent ls → keeps_apart ls ≡ true
unfolding keeps_apart
Coherent-keeps_apart [] c = refl
Coherent-keeps_apart (l ∷ ls) c = ground (arith, c.0, Coherent-keeps_apart ls c.1)

-- Whatever the input, `main` ends without an exception, and at the end of its loop no two
-- transactions have conflicting locks on one resource; this is if the log is open at the start, holds
-- legal records, and the clock stays within 64 bits.
pub run_main-keeps_apart :
    (clock : ℕ → Clock) (place : ℕ → ℕ) (log_mgr : LogManager) (rs : List LogRecord)
    (file : Option Bytes) (standard : Bytes)
    → ((n : ℕ) → Fits (clock n))
    → Holds rs log_mgr
    → (sh : Shell) × (run_input clock place log_mgr file standard ≡ some (ok sh))
      × (run_main clock place log_mgr file standard
          ≡ some (ok (leave (at_end clock file standard) sh)))
      × ((resource : ℕ) → keeps_apart (at resource sh.lock_mgr.resource_locks) ≡ true)
run_main-keeps_apart clock place log_mgr rs file standard fits h =
    let (sh, looped, e, both) =
      run_main_rule _ (lock_rules FitsCommand (λ n. IsSomeSound) IsSafe sound_rules step-IsSafe)
        clock place log_mgr file standard fits
        ((rs, start-IsSound place log_mgr rs h), unfold start in init-IsSafe place) in
    (
      sh,
      looped,
      e,
      λ resource.
          Coherent-keeps_apart (at resource sh.lock_mgr.resource_locks) (both.1.coherent resource),
    )

-- Strict two-phase locking over any lines of input: from a state in which log, transaction manager
-- and lock manager agree, the lines end without an exception, and a transaction that held a lock on a
-- resource before them still holds one after them, unless the transaction manager says that it has
-- ended. The transactions begun before and the lines are together fewer than 2^32 - 1, and the clock
-- stays within 64 bits.
pub run_lines_keeps_locks :
    (lines : List (Clock × Bytes)) (owner resource : ℕ) (rs : List LogRecord) (sh : Shell)
    → All (λ (e : Clock × Bytes). Fits e.0) lines
    → IsSound rs sh
    → Agrees rs sh
    → length sh.txn_ids + length lines + 1 < u32_mod
    → has_lock owner resource sh.lock_mgr ≡ true
    → (sh' : Shell) × (run_lines lines sh ≡ some (ok sh'))
      × ((is_ended (get_transaction owner sh'.tm) || has_lock owner resource sh'.lock_mgr) ≡ true)
run_lines_keeps_locks lines owner resource rs sh fits sound agrees room held =
    let start : IsConsistent (length sh.txn_ids) sh = record {
      log_records = rs;
      sound = sound;
      few = omega arith;
      agrees = λ _. agrees;
    } in
    let (sh', e, both) =
      run_lines_rule FitsCommand _
        (lock_rules FitsCommand IsConsistent (λ m. keeps owner resource m ≡ true) IsConsistent-rules
          (step-keeps owner resource))
        lines (length sh.txn_ids) sh fits (All-FitsCommand lines) (start, ground (arith, held)) in
    (
      sh',
      e,
      ap (λ b. b || has_lock owner resource sh'.lock_mgr)
            (sym ((both.0.agrees room).completes owner))
          ∙ both.1,
    )

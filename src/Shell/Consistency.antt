-- ===== src/Shell/Consistency.antt =====
-- The agreement of log, transaction manager and lock manager, and what each change of the state keeps
-- of it.
pub mod Kept
pub mod Run
use transaction_manager.Shared.{
  ℕ, suc, ◌+◌, ◌<◌, ◌≤◌, ◌==◌, true, false, ◌||◌, Option, none, some, List, [], ◌∷◌, ◌++◌, Bytes,
  length, ok, ◌≡◌, refl, ap, sym, subst, ◌∙◌, inl, inr, Bool-cases, arith,
}
use transaction_manager.Shared.OrderedMap.{find}
use transaction_manager.Shared.OrderedSet.{contains}
use transaction_manager.Shared.Text.{str_eq, pieces, print_int, ℤ}
use transaction_manager.Constants.{u32_mod}
use transaction_manager.Enums.{TransactionState, active, committed, aborted, transaction_state_eq}
use transaction_manager.Storage.Record.{Record}
use transaction_manager.Storage.DataStore.{update_record}
use transaction_manager.Transaction.TransactionManager
use transaction_manager.Transaction.Transaction
use transaction_manager.Transaction.TransactionManager.{
  TransactionManager, begin_transaction, commit_transaction, abort_transaction,
  abort_all_transactions, get_transaction, get_active_transaction_ids,
}
use transaction_manager.Transaction.TransactionManager.Invariant.{
  IsValid, init-IsValid, begin-IsValid, commit-IsValid, abort-IsValid, abort_each-IsValid,
  next-abort, next-abort_each,
}
use transaction_manager.Transaction.TransactionManager.Lifecycle.{
  Ends, commit_transaction-Ends, abort_transaction-Ends,
}
use transaction_manager.Transaction.TransactionManager.AbortAll.{is_state, is_ended}
use transaction_manager.Concurrency.LockManager.State
use transaction_manager.Concurrency.LockManager.State.{LockManager, is_complete}
use transaction_manager.Concurrency.LockManager.Request.{request_lock, set_resource_parent}
use transaction_manager.Concurrency.LockManager.Ends.{is_complete-request}
use transaction_manager.Recovery.LogRecord.{
  LogType, LogRecord, begin, update, commit, abort, checkpoint,
}
use transaction_manager.Recovery.LogManager.{LogManager, newline, flush_logs}
use transaction_manager.Recovery.LogManager.Contents.{Holds}
use transaction_manager.Recovery.RecoveryManager.{RecoveryManager, analyze_each}
use transaction_manager.Recovery.RecoveryManager.Analysis.{
  with_aborts, analysis_exact, commits, left_open, is_commit, status,
}
use transaction_manager.Shell.State.{Shell, Clock, Table, lookup, store, start, with_resource}
use transaction_manager.Shell.Commands.{log, say}
use transaction_manager.Shell.Dispatch.{begun, ended, after_recovery, recover_command}
use transaction_manager.Shell.Input.{choose, leave, run_main}
use transaction_manager.Shell.Rules.{Returns, Fits, KeepsResources}
use transaction_manager.Shell.AccessRules.{FitsCommand, KeepsAccess}
use transaction_manager.Shell.CommandRules.{KeepsCommands}
use transaction_manager.Shell.Program.{run_main_rule}
use transaction_manager.Shell.Sound.{
  IsSound, entry, known_id, commit_next, resource-IsSound, write-IsSound, begun-IsSound,
  ended-IsSound, checkpoint-IsSound, recover-IsSound, start-IsSound, pend-IsSound, quiet-IsSound,
  ask-IsSound,
}
use transaction_manager.Shell.Agreement.{
  Tells, neutral-Tells, begin-Tells, end-Tells, recover-Tells, Completes, begin-Completes,
  end-Completes, recover-Completes,
}

-- Log, transaction manager and lock manager agree, and each id belongs to a label.
pub record Agrees (rs : List LogRecord) (sh : Shell) : Type 0 where
  pub valid : IsValid sh.tm
  pub counted : sh.tm.next_transaction_id ≡ length sh.txn_ids + 1
  pub tells : Tells rs sh.tm
  pub completes : Completes sh.tm sh.lock_mgr

-- A change that keeps the transactions, the log and the ends in the lock manager keeps the agreement.
pub same-Agrees :
    (rs : List LogRecord) (sh sh' : Shell)
    → sh'.tm ≡ sh.tm
    → sh'.txn_ids ≡ sh.txn_ids
    → ((k : ℕ) → is_complete k sh'.lock_mgr ≡ is_complete k sh.lock_mgr)
    → Agrees rs sh
    → Agrees rs sh'
same-Agrees rs sh sh' t i c a = record {
  valid = subst IsValid (sym t) a.valid;
  counted =
      ap (λ (tm : TransactionManager). tm.next_transaction_id) t
      ∙ a.counted
      ∙ ap (λ (l : Table). length l + 1) (sym i);
  tells = subst (Tells rs) (sym t) a.tells;
  completes = λ k.
      c k
      ∙ a.completes k
      ∙ ap (λ (tm : TransactionManager). is_ended (get_transaction k tm)) (sym t);
}

pub resource_completes :
    (k : ℕ) (path : Bytes) (last_id : ℕ) (r : Record) (sh : Shell)
    → is_complete k (with_resource path last_id r sh).lock_mgr ≡ is_complete k sh.lock_mgr
unfolding with_resource is_complete set_resource_parent
resource_completes k path last_id r sh = elim (Bool-cases (last_id == 0)) [
  | inl e ↦ rw e refl
  | inr e ↦ rw e refl
]

pub length-store :
    (key : Bytes) (id : ℕ) (table : Table)
    → lookup key table ≡ none
    → length (store key id table) ≡ length table + 1
unfolding lookup store
length-store key id [] e = refl
length-store key id ((k, x) ∷ table) e = elim (Bool-cases (str_eq k key)) [
  | inl h ↦ absurd (ground arith)
  | inr h ↦ rw h (omega (arith, length-store key id table (ground arith)))
]

pub write-Agrees :
    (clock : Clock) (txn id : ℕ) (v : ℤ) (rs : List LogRecord) (sh : Shell)
    → Agrees rs sh
    → Agrees (rs ++ entry clock txn update ∷ []) (
        log clock txn update (record sh {
          data_store = (update_record id (print_int v) (clock.system id) sh.data_store).1;
        }))
unfolding log
write-Agrees clock txn id v rs sh a = record {
  valid = a.valid;
  counted = a.counted;
  tells = neutral-Tells rs (entry clock txn update) sh.tm refl refl a.tells;
  completes = a.completes;
}

pub begun-Agrees :
    (clock : Clock) (label : Bytes) (rs : List LogRecord) (sh : Shell)
    → lookup label sh.txn_ids ≡ none
    → length sh.txn_ids + 2 < u32_mod
    → Agrees rs sh
    → Agrees (rs ++ entry clock sh.tm.next_transaction_id begin ∷ []) (begun clock label sh)
unfolding begun log
begun-Agrees clock label rs sh new room a =
    let now = clock.system sh.tm.next_transaction_id in
    record {
      valid =
          unfold TransactionManager.step in
          begin-IsValid now sh.tm (omega (arith, room, a.counted)) a.valid;
      counted =
          unfold begin_transaction Transaction.create in
          omega
            (arith, room, a.counted, length-store label sh.tm.next_transaction_id sh.txn_ids new);
      tells =
          begin-Tells now now rs (entry clock sh.tm.next_transaction_id begin) sh.tm a.valid refl
            refl a.tells;
      completes = begin-Completes now sh.tm sh.lock_mgr a.valid a.completes;
    }

-- A transaction that the manager has ended, in the log and in the lock manager.
ended-Agrees :
    (clock : Clock) (txn : ℕ) (s : TransactionState) (t : LogType) (tm' : TransactionManager)
    (rs : List LogRecord) (sh : Shell)
    → IsValid tm'
    → tm'.next_transaction_id ≡ sh.tm.next_transaction_id
    → Ends s txn (clock.system txn) sh.tm (true, tm')
    → is_commit t ≡ transaction_state_eq s committed
    → status t ≡ some false
    → transaction_state_eq s active ≡ false
    → (transaction_state_eq s committed || transaction_state_eq s aborted) ≡ true
    → Agrees rs sh
    → Agrees (rs ++ entry clock txn t ∷ []) (ended clock txn t tm' sh)
unfolding ended log
ended-Agrees clock txn s t tm' rs sh v same ends c st act final a = record {
  valid = v;
  counted = same ∙ a.counted;
  tells =
      end-Tells s (clock.system txn) rs (entry clock txn t) sh.tm tm' a.valid ends c st act a.tells;
  completes = end-Completes s txn (clock.system txn) sh.tm tm' sh.lock_mgr ends final a.completes;
}

pub commit-Agrees :
    (clock : Clock) (txn : ℕ) (rs : List LogRecord) (sh : Shell)
    → (commit_transaction txn (clock.system txn) sh.tm).0 ≡ true
    → Agrees rs sh
    → Agrees
        (rs ++ entry clock txn commit ∷ [])
        (ended clock txn commit (commit_transaction txn (clock.system txn) sh.tm).1 sh)
unfolding transaction_state_eq
commit-Agrees clock txn rs sh done a =
    let now = clock.system txn in
    let tried = commit_transaction txn now sh.tm in
    ended-Agrees clock txn committed commit tried.1 rs sh (commit-IsValid txn now sh.tm a.valid)
      (commit_next txn now sh.tm)
      (subst (λ b. Ends committed txn now sh.tm (b, tried.1)) done
        (commit_transaction-Ends txn now sh.tm))
      refl refl refl refl a

pub abort-Agrees :
    (clock : Clock) (txn : ℕ) (rs : List LogRecord) (sh : Shell)
    → (abort_transaction txn (clock.system txn) sh.tm).0 ≡ true
    → Agrees rs sh
    → Agrees
        (rs ++ entry clock txn abort ∷ [])
        (ended clock txn abort (abort_transaction txn (clock.system txn) sh.tm).1 sh)
unfolding transaction_state_eq
abort-Agrees clock txn rs sh done a =
    let now = clock.system txn in
    let tried = abort_transaction txn now sh.tm in
    ended-Agrees clock txn aborted abort tried.1 rs sh (abort-IsValid txn now sh.tm a.valid)
      (next-abort txn now sh.tm)
      (subst (λ b. Ends aborted txn now sh.tm (b, tried.1)) done
        (abort_transaction-Ends txn now sh.tm))
      refl refl refl refl a

pub recover-Agrees :
    (clock : Clock) (log_mgr' : LogManager) (m : RecoveryManager) (rs : List LogRecord) (sh : Shell)
    → Agrees rs sh
    → Agrees (with_aborts clock.seconds rs) (after_recovery clock log_mgr' m sh)
unfolding after_recovery say
recover-Agrees clock log_mgr' m rs sh a = record {
  valid =
      unfold abort_all_transactions in
      abort_each-IsValid (get_active_transaction_ids sh.tm) clock.system sh.tm a.valid;
  counted =
      unfold abort_all_transactions in
      next-abort_each (get_active_transaction_ids sh.tm) clock.system sh.tm ∙ a.counted;
  tells = recover-Tells clock rs sh.tm a.valid a.tells;
  completes = recover-Completes clock.system sh.tm sh.lock_mgr a.valid a.completes;
}

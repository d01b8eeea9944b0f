-- ===== src/Shell/Agreement.antt =====
-- What log, transaction manager and lock manager say of each transaction.
use transaction_manager.Shared.{
  ℕ, ◌==◌, true, false, ◌||◌, ◌&&◌, none, some, List, [], ◌∷◌, ◌++◌, ◌≡◌, refl, sym, ◌∙◌,
  if◌then◌else◌, arith,
}
use transaction_manager.Shared.OrderedSet.{contains}
use transaction_manager.Enums.{TransactionState, active, committed, aborted, transaction_state_eq}
use transaction_manager.Transaction.Transaction.{Transaction, is_completed}
use transaction_manager.Transaction.Transaction
use transaction_manager.Transaction.TransactionManager.{
  TransactionManager, begin_transaction, abort_all_transactions, get_transaction,
  get_active_transaction_ids,
}
use transaction_manager.Transaction.TransactionManager.Invariant.{IsValid}
use transaction_manager.Transaction.TransactionManager.AbortAll.{
  is_state, is_ended, abort_all_states,
}
use transaction_manager.Transaction.TransactionManager.Lifecycle.{Ends, begin_transaction_fresh}
use transaction_manager.Recovery.LogRecord.{LogRecord, begin}
use transaction_manager.Recovery.RecoveryManager.Analysis.{
  commits, left_open, is_commit, status, after_record, left_open-append, commits-append,
  commits-aborts, closed_by_aborts, with_aborts,
}
use transaction_manager.Shell.State.{Clock}
use transaction_manager.Recovery.RecoveryManager.{analyze_each}
use transaction_manager.Concurrency.LockManager.State.{LockManager, is_complete}
use transaction_manager.Concurrency.LockManager.Release.{complete_transaction}
use transaction_manager.Concurrency.LockManager.Ends.{is_complete_complete}
use transaction_manager.Shell.Dispatch.{complete_each}

-- The records of the log say of each transaction what the manager says.
pub record Tells (rs : List LogRecord) (tm : TransactionManager) : Type 0 where
  pub committed_in : (k : ℕ) → commits k rs ≡ is_state committed (get_transaction k tm)
  pub open_in : (k : ℕ) → left_open k false rs ≡ is_state active (get_transaction k tm)

commits_snoc :
    (k : ℕ) (rs : List LogRecord) (r : LogRecord)
    → commits k (rs ++ r ∷ []) ≡ (commits k rs || (r.transaction_id == k && is_commit r.log_type))
unfolding commits
commits_snoc k rs r = commits-append k rs (r ∷ []) ∙ ground arith

left_open_snoc :
    (k : ℕ) (rs : List LogRecord) (r : LogRecord)
    → left_open k false (rs ++ r ∷ []) ≡ (
        if r.transaction_id == k
        then after_record (status r.log_type) (left_open k false rs)
        else left_open k false rs)
unfolding left_open
left_open_snoc k rs r = left_open-append k false rs (r ∷ [])

-- UPDATE and CHECKPOINT records say nothing of the end of a transaction.
pub neutral-Tells :
    (rs : List LogRecord) (r : LogRecord) (tm : TransactionManager)
    → is_commit r.log_type ≡ false
    → status r.log_type ≡ none
    → Tells rs tm
    → Tells (rs ++ r ∷ []) tm
neutral-Tells rs r tm c s tells = record {
  committed_in = λ k. commits_snoc k rs r ∙ ground (arith, c, tells.committed_in k);
  open_in = λ k. left_open_snoc k rs r ∙ ground (arith, s, tells.open_in k);
}

pub begin-Tells :
    (now time : ℕ) (rs : List LogRecord) (r : LogRecord) (tm : TransactionManager)
    → IsValid tm
    → r.transaction_id ≡ tm.next_transaction_id
    → r.log_type ≡ begin
    → Tells rs tm
    → Tells (rs ++ r ∷ []) (begin_transaction now now tm).1
unfolding transaction_state_eq begin_transaction Transaction.create
begin-Tells now time rs r tm v own_id t tells =
    let (new, _, others) = begin_transaction_fresh now now tm v in
    record {
      committed_in =
          λ k. commits_snoc k rs r ∙ ground (arith, tells.committed_in k, own_id, t, others k, new);
      open_in =
          λ k. left_open_snoc k rs r ∙ ground (arith, tells.open_in k, own_id, t, others k, new);
    }

-- A transaction that the manager ends is reported as ended in the same way.
pub end-Tells :
    (s : TransactionState) (now : ℕ) (rs : List LogRecord) (r : LogRecord)
    (tm tm' : TransactionManager)
    → IsValid tm
    → Ends s r.transaction_id now tm (true, tm')
    → is_commit r.log_type ≡ transaction_state_eq s committed
    → status r.log_type ≡ some false
    → transaction_state_eq s active ≡ false
    → Tells rs tm
    → Tells (rs ++ r ∷ []) tm'
unfolding transaction_state_eq get_transaction is_completed
end-Tells s now rs r tm tm' v (t, e, _, _, _, others) c st a tells = record {
  committed_in = λ k.
      commits_snoc k rs r
      ∙ ground (arith, tells.committed_in k, others k, c, e, v.active_entry k t);
  open_in = λ k. left_open_snoc k rs r ∙ ground (arith, tells.open_in k, others k, st, a, e);
}

-- RECOVER ends all active transactions, and so do the records that recovery adds.
pub recover-Tells :
    (clock : Clock) (rs : List LogRecord) (tm : TransactionManager)
    → IsValid tm
    → Tells rs tm
    → Tells (with_aborts clock.seconds rs) (abort_all_transactions clock.system tm)
recover-Tells clock rs tm v tells = record {
  committed_in = λ k.
      commits-append k rs _
      ∙ ground (
        arith,
        commits-aborts clock.seconds k (analyze_each rs ([], [])).1,
        tells.committed_in k,
        (abort_all_states clock.system tm v k).1,
      );
  open_in = λ k. closed_by_aborts clock.seconds k rs ∙ sym (abort_all_states clock.system tm v k).0;
}

-- The lock manager has completed exactly the transactions that have ended.
abbrev pub Completes : TransactionManager → LockManager → Type 0
Completes tm m = (k : ℕ) → is_complete k m ≡ is_ended (get_transaction k tm)

pub begin-Completes :
    (now : ℕ) (tm : TransactionManager) (m : LockManager)
    → IsValid tm
    → Completes tm m
    → Completes (begin_transaction now now tm).1 m
unfolding begin_transaction Transaction.create is_completed transaction_state_eq
begin-Completes now tm m v c k =
    let (new, _, others) = begin_transaction_fresh now now tm v in
    ground (arith, c k, others k, new)

pub end-Completes :
    (s : TransactionState) (id now : ℕ) (tm tm' : TransactionManager) (m : LockManager)
    → Ends s id now tm (true, tm')
    → (transaction_state_eq s committed || transaction_state_eq s aborted) ≡ true
    → Completes tm m
    → Completes tm' (complete_transaction id m).1
unfolding is_completed
end-Completes s id now tm tm' m (t, _, _, _, _, others) final c k =
    is_complete_complete k id m ∙ ground (arith, c k, others k, final)

pub is_complete-complete_each :
    (k : ℕ) (ids : List ℕ) (m : LockManager)
    → is_complete k (complete_each ids m) ≡ (contains k ids || is_complete k m)
unfolding complete_each contains
is_complete-complete_each k [] m = refl
is_complete-complete_each k (id ∷ ids) m =
    is_complete-complete_each k ids (complete_transaction id m).1
    ∙ ground (arith, is_complete_complete k id m)

pub recover-Completes :
    (clock : ℕ → ℕ) (tm : TransactionManager) (m : LockManager)
    → IsValid tm
    → Completes tm m
    → Completes (abort_all_transactions clock tm) (complete_each (get_active_transaction_ids tm) m)
recover-Completes clock tm m v c k =
    is_complete-complete_each k (get_active_transaction_ids tm) m
    ∙ ground (arith, c k, (abort_all_states clock tm v k).2)

-- ===== src/Transaction/TransactionManager/History.antt =====
-- The transactions that have ended: they stay as they are, also when all others are aborted.
use transaction_manager.Shared.{
  ℕ, ◌+◌, ◌<◌, ◌≡◌, ◌≢◌, ◌∙◌, ap, refl, List, [], ◌∷◌, none, some, length, Option-cases, is_some,
  inl, inr, if◌then◌else◌, ◌==◌, arith,
}
use transaction_manager.Shared.OrderedMap.{OrderedMap, find, keys, find-insert, find-erase}
use transaction_manager.Shared.OrderedSet.{contains}
use transaction_manager.Constants.{u32_mod}
use transaction_manager.Enums.{committed, aborted}
use transaction_manager.Transaction.Transaction.{Transaction, set_state}
use transaction_manager.Transaction.TransactionManager.{
  TransactionManager, Op, begins, commits, aborts, aborts_all, clears, begin_transaction,
  commit_transaction, abort_transaction, abort_each, abort_all_transactions, step, run,
  get_transaction, get_active_transaction_count, get_active_transaction_ids,
}
use transaction_manager.Transaction.TransactionManager.Invariant.{
  IsValid, step-IsValid, next-step-le, abort-IsValid, abort_each-IsValid, next-abort_each,
}

-- The record of transaction `id` in the history is `t`.
abbrev pub Ended : ℕ → Transaction → TransactionManager → Type 0
Ended id t tm = find id tm.completed_transactions ≡ some t

abort-Ended :
    (k : ℕ) (t : Transaction) (id now : ℕ) (tm : TransactionManager)
    → IsValid tm
    → Ended k t tm
    → Ended k t (abort_transaction id now tm).1
unfolding abort_transaction
abort-Ended k t id now tm v e = elim (Option-cases (find id tm.active_transactions)) [
  | inl a ↦ rw (a, abort_transaction) e
  | inr (u, a) ↦
      rw (a, abort_transaction)
        (ground (
          arith,
          find-insert k id (set_state aborted now u) tm.completed_transactions,
          v.active_entry id u,
        ))
]

commit-Ended :
    (k : ℕ) (t : Transaction) (id now : ℕ) (tm : TransactionManager)
    → IsValid tm
    → Ended k t tm
    → Ended k t (commit_transaction id now tm).1
unfolding commit_transaction
commit-Ended k t id now tm v e = elim (Option-cases (find id tm.active_transactions)) [
  | inl a ↦ rw (a, commit_transaction) e
  | inr (u, a) ↦
      rw (a, commit_transaction)
        (ground (
          arith,
          find-insert k id (set_state committed now u) tm.completed_transactions,
          v.active_entry id u,
        ))
]

abort_each-Ended :
    (k : ℕ) (t : Transaction) (ids : List ℕ) (clock : ℕ → ℕ) (tm : TransactionManager)
    → IsValid tm
    → Ended k t tm
    → Ended k t (abort_each ids clock tm)
unfolding abort_each
abort_each-Ended k t [] clock tm v e = e
abort_each-Ended k t (id ∷ ids) clock tm v e =
    abort_each-Ended k t ids clock (abort_transaction id (clock id) tm).1
      (abort-IsValid id (clock id) tm v) (abort-Ended k t id (clock id) tm v e)

-- The calls other than `clearCompletedTransactions`.
abbrev pub KeepsHistory : List (ℕ × Op) → Type 0
KeepsHistory [] = Unit
KeepsHistory ((_, op) ∷ ops) = (op ≢ clears) × KeepsHistory ops

step-Ended :
    (k : ℕ) (t : Transaction) (now : ℕ) (op : Op) (tm : TransactionManager)
    → op ≢ clears
    → IsValid tm
    → Ended k t tm
    → Ended k t (step now op tm)
unfolding step
step-Ended k t now begins tm ne v e = unfold begin_transaction in e
step-Ended k t now (commits id) tm ne v e = commit-Ended k t id now tm v e
step-Ended k t now (aborts id) tm ne v e = abort-Ended k t id now tm v e
step-Ended k t now (aborts_all clock) tm ne v e =
    unfold abort_all_transactions in
    abort_each-Ended k t (get_active_transaction_ids tm) clock tm v e
step-Ended k t now clears tm ne v e = absurd (ne refl)

-- A transaction that has ended is never changed again: whatever calls follow, as long as the ids
-- cannot run out and the history is not cleared, it keeps its state, end time and all else, and
-- `getTransaction` still returns it.
pub run-Ended :
    (ops : List (ℕ × Op)) (k : ℕ) (t : Transaction) (tm : TransactionManager)
    → tm.next_transaction_id + length ops < u32_mod
    → KeepsHistory ops
    → IsValid tm
    → Ended k t tm
    → Ended k t (run ops tm) × (get_transaction k (run ops tm) ≡ some t)
unfolding run get_transaction
run-Ended [] k t tm room h v e = elim (Option-cases (find k tm.active_transactions)) [
  | inl a ↦ (e, rw (a, get_transaction) e)
  | inr (u, a) ↦ absurd (ground (arith, v.active_entry k u))
]
run-Ended ((now, op) ∷ ops) k t tm room h v e =
    run-Ended ops k t (step now op tm) (omega (arith, next-step-le now op tm)) h.1
      (step-IsValid now op tm (omega arith) v) (step-Ended k t now op tm h.0 v e)

none_left : {V : Type 0} (m : OrderedMap V) → ((k : ℕ) → find k m ≡ none) → m ≡ []
unfolding find
none_left [] h = refl
none_left ((k, v) ∷ m) h = absurd (ground (arith, h k))

pub found_is_key :
    (k : ℕ) {V : Type 0} (m : OrderedMap V) → contains k (keys m) ≡ is_some (find k m)
unfolding find keys contains
found_is_key k [] = refl
found_is_key k ((j, v) ∷ m) = ground (arith, found_is_key k m)

pub abort-find :
    (k id now : ℕ) (tm : TransactionManager)
    → find k (abort_transaction id now tm).1.active_transactions
      ≡ (if id == k then none else find k tm.active_transactions)
unfolding abort_transaction
abort-find k id now tm = ground (arith, find-erase k id tm.active_transactions)

pub abort_each-find :
    (k : ℕ) (ids : List ℕ) (clock : ℕ → ℕ) (tm : TransactionManager)
    → find k (abort_each ids clock tm).active_transactions
      ≡ (if contains k ids then none else find k tm.active_transactions)
unfolding abort_each contains
abort_each-find k [] clock tm = refl
abort_each-find k (id ∷ ids) clock tm = ground (
  arith,
  abort_each-find k ids clock (abort_transaction id (clock id) tm).1,
  abort-find k id (clock id) tm,
)

abort_each-committed :
    (ids : List ℕ) (clock : ℕ → ℕ) (tm : TransactionManager)
    → (abort_each ids clock tm).committed_count ≡ tm.committed_count
unfolding abort_each
abort_each-committed [] clock tm = refl
abort_each-committed (id ∷ ids) clock tm =
    abort_each-committed ids clock (abort_transaction id (clock id) tm).1
    ∙ (unfold abort_transaction in ground arith)

-- `abortAllTransactions` leaves no active transaction, commits none, and counts every one that was
-- active as aborted.
pub abort_all_transactions_lem :
    (clock : ℕ → ℕ) (tm : TransactionManager)
    → IsValid tm
    → let tm' = abort_all_transactions clock tm in
      (get_active_transaction_count tm' ≡ 0)
      × (tm'.committed_count ≡ tm.committed_count)
      × (tm'.aborted_count ≡ tm.aborted_count + get_active_transaction_count tm)
unfolding abort_all_transactions get_active_transaction_count
abort_all_transactions_lem clock tm v =
    let ids = get_active_transaction_ids tm in
    let v' = abort_each-IsValid ids clock tm v in
    let same = abort_each-committed ids clock tm in
    let empty : length (abort_each ids clock tm).active_transactions ≡ 0 = ap length (
      none_left (abort_each ids clock tm).active_transactions
        (λ k. abort_each-find k ids clock tm ∙ all_aborted k)) in
    (empty, same, omega (arith, empty, same, v'.counted, v.counted, next-abort_each ids clock tm))
  where
    all_aborted :
        (k : ℕ)
        → (if contains k (get_active_transaction_ids tm)
            then none
            else find k tm.active_transactions)
          ≡ none
    all_aborted k =
        unfold get_active_transaction_ids in ground (arith, found_is_key k tm.active_transactions)

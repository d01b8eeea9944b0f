-- ===== src/Transaction/TransactionManager/Invariant.antt =====
-- The manager's invariant, kept by every call while ids last.
use transaction_manager.Shared.{
  ℕ, ◌+◌, ◌≤◌, ◌<◌, ◌≡◌, ◌∙◌, ap, refl, true, false, List, [], ◌∷◌, Option, none, some, length,
  Option-cases, is_some, inl, inr, if◌then◌else◌, arith,
}
use transaction_manager.Shared.OrderedMap.{
  find, insert, erase, find-insert, find-erase, IsOrdered, insert-AscendsFrom, erase-AscendsFrom,
  length-insert, length-erase,
}
use transaction_manager.Constants.{u32_mod}
use transaction_manager.Enums.{TransactionState, committed, aborted}
use transaction_manager.Transaction.Transaction.{
  Transaction, set_state, is_completed, set_state_lem,
}
use transaction_manager.Transaction.Transaction
use transaction_manager.Transaction.TransactionManager.{
  TransactionManager, Op, begins, commits, aborts, aborts_all, clears, init, begin_transaction,
  commit_transaction, abort_transaction, abort_each, abort_all_transactions, step, run,
  clear_completed_transactions, get_active_transaction_ids,
}

pub record IsValid (tm : TransactionManager) : Type 0 where
  pub active_ordered : IsOrdered tm.active_transactions
  pub completed_ordered : IsOrdered tm.completed_transactions
  -- An active transaction stands under its own id, has not completed, and is in no history.
  pub active_entry :
      (k : ℕ) (t : Transaction)
      → find k tm.active_transactions ≡ some t
      → (t.transaction_id ≡ k)
        × (is_completed t ≡ false)
        × (k < tm.next_transaction_id)
        × (find k tm.completed_transactions ≡ none)
  pub completed_entry :
      (k : ℕ) (t : Transaction)
      → find k tm.completed_transactions ≡ some t
      → (t.transaction_id ≡ k) × (is_completed t ≡ true) × (k < tm.next_transaction_id)
  -- Every id that was handed out is accounted for.
  pub counted :
      length tm.active_transactions + tm.committed_count + tm.aborted_count + 1
      ≡ tm.next_transaction_id
  pub id_in_range : tm.next_transaction_id < u32_mod

pub init-IsValid : IsValid init
unfolding init find
init-IsValid = record {
  active_ordered = tt;
  completed_ordered = tt;
  active_entry = λ k t e. absurd (cc);
  completed_entry = λ k t e. absurd (cc);
  counted = refl;
  id_in_range = omega arith;
}

pub begin-IsValid :
    (now : ℕ) (tm : TransactionManager)
    → tm.next_transaction_id + 1 < u32_mod
    → IsValid tm
    → IsValid (step now begins tm)
unfolding step begin_transaction Transaction.create is_completed
begin-IsValid now tm room v = record {
  active_ordered = insert-AscendsFrom _ _ 0 tm.active_transactions (omega arith) v.active_ordered;
  completed_ordered = v.completed_ordered;
  active_entry = λ k t e. ground (
    arith,
    find-insert k tm.next_transaction_id (Transaction.create tm.next_transaction_id now now)
        tm.active_transactions,
    v.active_entry k t,
    absent k,
  );
  completed_entry = λ k t e. ground (arith, v.completed_entry k t e);
  counted = omega (
    arith,
    length-insert tm.next_transaction_id (Transaction.create tm.next_transaction_id now now) 0
        tm.active_transactions v.active_ordered,
    fresh,
  );
  id_in_range = omega arith;
}
  where
    absent : (k : ℕ) → k ≡ tm.next_transaction_id → find k tm.completed_transactions ≡ none
    absent k e = elim (Option-cases (find k tm.completed_transactions)) [
      | inl h ↦ h
      | inr (t, h) ↦ absurd (omega (arith, (v.completed_entry k t h).2))
    ]

    fresh :
        ◌≡◌ {A = ℕ}
          (if is_some (find tm.next_transaction_id tm.active_transactions) then 0 else 1)
          1
    fresh = elim (Option-cases (find tm.next_transaction_id tm.active_transactions)) [
      | inl h ↦ rw h
      | inr (t, h) ↦ absurd (omega (arith, (v.active_entry tm.next_transaction_id t h).2))
    ]

module _ (id now : ℕ) (tm : TransactionManager) (v : IsValid tm) where
  -- Moving an active transaction to the history in the final state `s`, with its count raised.
  move-IsValid :
      (s : TransactionState) (t : Transaction) (committed_count aborted_count : ℕ)
      → is_completed (set_state s now t) ≡ true
      → find id tm.active_transactions ≡ some t
      → committed_count + aborted_count ≡ tm.committed_count + tm.aborted_count + 1
      → IsValid (record tm {
        committed_count = committed_count;
        aborted_count = aborted_count;
        completed_transactions = insert id (set_state s now t) tm.completed_transactions;
        active_transactions = erase id tm.active_transactions;
      })
  move-IsValid s t c a final e sum = record {
    active_ordered = erase-AscendsFrom id 0 tm.active_transactions v.active_ordered;
    completed_ordered =
        insert-AscendsFrom id _ 0 tm.completed_transactions (omega arith) v.completed_ordered;
    active_entry = λ k u h. ground (
      arith,
      find-erase k id tm.active_transactions,
      find-insert k id (set_state s now t) tm.completed_transactions,
      v.active_entry k u,
    );
    completed_entry = λ k u h. ground (
      arith,
      find-insert k id (set_state s now t) tm.completed_transactions,
      v.active_entry id t,
      v.completed_entry k u,
      (set_state_lem s now t).2,
    );
    counted = omega (
      arith,
      length-erase id 0 tm.active_transactions v.active_ordered,
      ap (λ (o : Option Transaction). ◌+◌ 0 (if is_some o then 1 else 0)) e,
      sum,
    );
    id_in_range = v.id_in_range;
  }

  active_positive :
      (t : Transaction)
      → find id tm.active_transactions ≡ some t
      → tm.committed_count + tm.aborted_count + 1 < u32_mod
  active_positive t e = omega (
    arith,
    length-erase id 0 tm.active_transactions v.active_ordered,
    ap (λ (o : Option Transaction). ◌+◌ 0 (if is_some o then 1 else 0)) e,
    v.counted,
    v.id_in_range,
  )

  pub commit-IsValid : IsValid (commit_transaction id now tm).1
  unfolding commit_transaction
  commit-IsValid = elim (Option-cases (find id tm.active_transactions)) [
    | inl e ↦ rw (e, commit_transaction) v
    | inr (t, e) ↦
        let room = active_positive t e in
        rw (e, commit_transaction)
          (move-IsValid committed t _ _ (unfold is_completed set_state in refl) e (omega arith))
  ]

  pub abort-IsValid : IsValid (abort_transaction id now tm).1
  unfolding abort_transaction
  abort-IsValid = elim (Option-cases (find id tm.active_transactions)) [
    | inl e ↦ rw (e, abort_transaction) v
    | inr (t, e) ↦
        let room = active_positive t e in
        rw (e, abort_transaction)
          (move-IsValid aborted t _ _ (unfold is_completed set_state in refl) e (omega arith))
  ]

pub abort_each-IsValid :
    (ids : List ℕ) (clock : ℕ → ℕ) (tm : TransactionManager)
    → IsValid tm
    → IsValid (abort_each ids clock tm)
unfolding abort_each
abort_each-IsValid [] clock tm v = v
abort_each-IsValid (id ∷ ids) clock tm v =
    abort_each-IsValid ids clock (abort_transaction id (clock id) tm).1
      (abort-IsValid id (clock id) tm v)

-- While fewer than 2^32 - 1 ids have been handed out, every call keeps the invariant.
pub step-IsValid :
    (now : ℕ) (op : Op) (tm : TransactionManager)
    → tm.next_transaction_id + 1 < u32_mod
    → IsValid tm
    → IsValid (step now op tm)
unfolding step find
step-IsValid now begins tm room v = begin-IsValid now tm room v
step-IsValid now (commits id) tm room v = commit-IsValid id now tm v
step-IsValid now (aborts id) tm room v = abort-IsValid id now tm v
step-IsValid now (aborts_all clock) tm room v =
    unfold abort_all_transactions in abort_each-IsValid (get_active_transaction_ids tm) clock tm v
step-IsValid now clears tm room v =
    unfold clear_completed_transactions in
    record {
      active_ordered = v.active_ordered;
      completed_ordered = tt;
      active_entry =
          λ k t e. let (id, live, below, _) = v.active_entry k t e in (id, live, below, refl);
      completed_entry = λ k t e. absurd (cc);
      counted = v.counted;
      id_in_range = v.id_in_range;
    }

pub next-abort :
    (id now : ℕ) (tm : TransactionManager)
    → (abort_transaction id now tm).1.next_transaction_id ≡ tm.next_transaction_id
unfolding abort_transaction
next-abort id now tm = ground arith

pub next-abort_each :
    (ids : List ℕ) (clock : ℕ → ℕ) (tm : TransactionManager)
    → (abort_each ids clock tm).next_transaction_id ≡ tm.next_transaction_id
unfolding abort_each
next-abort_each [] clock tm = refl
next-abort_each (id ∷ ids) clock tm =
    next-abort_each ids clock (abort_transaction id (clock id) tm).1 ∙ next-abort id (clock id) tm

pub next-step-le :
    (now : ℕ) (op : Op) (tm : TransactionManager)
    → (step now op tm).next_transaction_id ≤ tm.next_transaction_id + 1
unfolding step find
next-step-le now begins tm = unfold begin_transaction in omega arith
next-step-le now (commits id) tm = unfold commit_transaction in ground arith
next-step-le now (aborts id) tm = omega (arith, next-abort id now tm)
next-step-le now (aborts_all clock) tm =
    unfold abort_all_transactions in
    omega (arith, next-abort_each (get_active_transaction_ids tm) clock tm)
next-step-le now clears tm = unfold clear_completed_transactions in omega arith

-- After any calls on a valid manager, as long as the ids cannot run out, the maps stay ordered and
-- disjoint, hold each transaction under its own id in the states that fit the map, and the ids
-- handed out are the active, the committed and the aborted ones.
pub run-IsValid :
    (ops : List (ℕ × Op)) (tm : TransactionManager)
    → tm.next_transaction_id + length ops < u32_mod
    → IsValid tm
    → IsValid (run ops tm)
unfolding run
run-IsValid [] tm room v = v
run-IsValid ((now, op) ∷ ops) tm room v =
    run-IsValid ops (step now op tm) (omega (arith, next-step-le now op tm))
      (step-IsValid now op tm (omega arith) v)

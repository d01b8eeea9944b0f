-- ===== src/Transaction/TransactionManager/Lifecycle.antt =====
-- How a transaction begins and ends: BEGIN, then COMMIT or ABORT, once.
use transaction_manager.Shared.{
  ℕ, ◌≤◌, ◌≡◌, refl, Bool, true, false, none, some, Option-cases, inl, inr, if◌then◌else◌, ◌==◌,
  ==_refl, arith,
}
use transaction_manager.Shared.OrderedMap.{find, insert, erase, find-insert, find-erase}
use transaction_manager.Enums.{TransactionState, committed, aborted}
use transaction_manager.Transaction.Transaction.{
  Transaction, set_state, is_completed, set_state_lem,
}
use transaction_manager.Transaction.Transaction
use transaction_manager.Transaction.TransactionManager.{
  TransactionManager, begin_transaction, commit_transaction, abort_transaction, get_transaction,
  is_transaction_active,
}
use transaction_manager.Transaction.TransactionManager.Invariant.{IsValid}

-- A new transaction has an id that no transaction of the manager had, is active at once, and
-- changes no other transaction.
pub begin_transaction_fresh :
    (start last : ℕ) (tm : TransactionManager)
    → IsValid tm
    → let (txn, tm') = begin_transaction start last tm in
      (get_transaction txn.transaction_id tm ≡ none)
      × (is_transaction_active txn.transaction_id tm' ≡ true)
      × ((k : ℕ)
          → get_transaction k tm'
            ≡ (if txn.transaction_id == k then some txn else get_transaction k tm))
unfolding begin_transaction get_transaction is_transaction_active Transaction.create
begin_transaction_fresh start last tm v =
    let k = tm.next_transaction_id in
    let txn = Transaction.create k start last in
    (
      no_such k (omega arith),
      ground (arith, find-insert k k txn tm.active_transactions),
      λ j. ground (arith, find-insert j k txn tm.active_transactions),
    )
  where
    no_such : (k : ℕ) → tm.next_transaction_id ≤ k → get_transaction k tm ≡ none
    no_such k h = elim (Option-cases (find k tm.active_transactions)) [
      | inl a ↦ elim (Option-cases (find k tm.completed_transactions)) [
        | inl c ↦ rw (a, get_transaction) c
        | inr (t, c) ↦ absurd (omega (arith, (v.completed_entry k t c).2))
      ]
      | inr (t, a) ↦ absurd (omega (arith, (v.active_entry k t a).2))
    ]

-- What a call that ends transaction `id` in the state `s` at time `now` does: it fails and changes
-- nothing where the transaction is not active, and otherwise moves it to the history, in its final
-- state and with its end time, so that it cannot be ended again; no other transaction changes.
abbrev pub Ends : TransactionState → ℕ → ℕ → TransactionManager → Bool × TransactionManager → Type 0
Ends s id now tm (false, tm') = (find id tm.active_transactions ≡ none) × (tm' ≡ tm)
Ends s id now tm (true, tm') =
    (t : Transaction) × (find id tm.active_transactions ≡ some t)
    × (is_transaction_active id tm' ≡ false)
    × ((commit_transaction id now tm').0 ≡ false)
    × ((abort_transaction id now tm').0 ≡ false)
    × ((k : ℕ)
        → get_transaction k tm' ≡ (
            if id == k
            then some (record t { state = s; end_time = now })
            else get_transaction k tm))

module _ (id now : ℕ) (tm tm' : TransactionManager) (s : TransactionState) (t : Transaction)
    (was_active : find id tm.active_transactions ≡ some t)
    (removed : tm'.active_transactions ≡ erase id tm.active_transactions)
    (stored : tm'.completed_transactions ≡ insert id (set_state s now t) tm.completed_transactions)
    (final : is_completed (record t { state = s }) ≡ true) where
  gone : find id tm'.active_transactions ≡ none
  gone = rw (removed, find-erase id id tm.active_transactions, ==_refl id)

  written : set_state s now t ≡ record t { state = s; end_time = now }
  unfolding set_state is_completed
  written = ground (arith, final)

  moved-Ends : Ends s id now tm (true, tm')
  unfolding get_transaction is_transaction_active commit_transaction abort_transaction
  moved-Ends = (
    t,
    was_active,
    rw (gone, is_transaction_active),
    rw (gone, commit_transaction),
    rw (gone, abort_transaction),
    λ k. ground (
      arith,
      removed,
      stored,
      find-erase k id tm.active_transactions,
      find-insert k id (set_state s now t) tm.completed_transactions,
      written,
    ),
  )

-- Committing does exactly what `Ends` says, for the state COMMITTED, on both branches.
pub commit_transaction-Ends :
    (id now : ℕ) (tm : TransactionManager) → Ends committed id now tm (commit_transaction id now tm)
unfolding commit_transaction
commit_transaction-Ends id now tm = elim (Option-cases (find id tm.active_transactions)) [
  | inl e ↦ rw (e, commit_transaction) (e, refl)
  | inr (t, e) ↦
      rw (e, commit_transaction)
        (moved-Ends id now tm _ committed t e refl refl (unfold is_completed in refl))
]

-- Aborting does exactly what `Ends` says, for the state ABORTED, on both branches.
pub abort_transaction-Ends :
    (id now : ℕ) (tm : TransactionManager) → Ends aborted id now tm (abort_transaction id now tm)
unfolding abort_transaction
abort_transaction-Ends id now tm = elim (Option-cases (find id tm.active_transactions)) [
  | inl e ↦ rw (e, abort_transaction) (e, refl)
  | inr (t, e) ↦
      rw (e, abort_transaction)
        (moved-Ends id now tm _ aborted t e refl refl (unfold is_completed in refl))
]

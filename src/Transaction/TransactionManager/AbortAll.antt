-- ===== src/Transaction/TransactionManager/AbortAll.antt =====
-- What `abortAllTransactions` leaves of each transaction.
use transaction_manager.Shared.{
  ℕ, ◌==◌, ==_refl, Bool, true, false, ◌||◌, Option, none, some, List, [], ◌∷◌, length, is_some,
  ◌≡◌, refl, ◌∙◌, if◌then◌else◌, inl, inr, Option-cases, arith,
}
use transaction_manager.Shared.OrderedMap.{OrderedMap, find}
use transaction_manager.Shared.OrderedSet.{contains}
use transaction_manager.Enums.{TransactionState, active, committed, aborted, transaction_state_eq}
use transaction_manager.Transaction.Transaction.{Transaction, is_completed}
use transaction_manager.Transaction.TransactionManager.{
  TransactionManager, abort_transaction, abort_each, abort_all_transactions, get_transaction,
  get_active_transaction_ids, get_active_transaction_count,
}
use transaction_manager.Transaction.TransactionManager.Invariant.{
  IsValid, abort-IsValid, abort_each-IsValid,
}
use transaction_manager.Transaction.TransactionManager.Lifecycle.{Ends, abort_transaction-Ends}
use transaction_manager.Transaction.TransactionManager.History.{
  found_is_key, abort-find, abort_all_transactions_lem,
}

-- The transaction is there, in the state.
abbrev pub is_state : TransactionState → Option Transaction → Bool
is_state s none = false
is_state s (some t) = transaction_state_eq t.state s

-- It is there, in a final state.
abbrev pub is_ended : Option Transaction → Bool
is_ended none = false
is_ended (some t) = is_completed t

abort_cases :
    (id now : ℕ) (tm : TransactionManager) (x : Bool × TransactionManager)
    → Ends aborted id now tm x
    → IsValid tm
    → (k : ℕ)
    → (is_state committed (get_transaction k x.1) ≡ is_state committed (get_transaction k tm))
      × ((is_some (find id tm.active_transactions) || is_ended (get_transaction id tm)) ≡ true
          → is_ended (get_transaction k x.1) ≡ (id == k || is_ended (get_transaction k tm)))
unfolding get_transaction is_completed transaction_state_eq
abort_cases id now tm (false, tm') (e, same) v k = rw same (refl, λ h. ground (arith, h, e))
abort_cases id now tm (true, tm') (t, e, _, _, _, others) v k =
    (ground (arith, others k, e, v.active_entry k t), λ h. ground (arith, others k, e))

abort_each-committed :
    (ids : List ℕ) (clock : ℕ → ℕ) (tm : TransactionManager)
    → IsValid tm
    → (k : ℕ)
    → is_state committed (get_transaction k (abort_each ids clock tm))
      ≡ is_state committed (get_transaction k tm)
unfolding abort_each
abort_each-committed [] clock tm v k = refl
abort_each-committed (id ∷ ids) clock tm v k =
    abort_each-committed ids clock (abort_transaction id (clock id) tm).1
      (abort-IsValid id (clock id) tm v) k
    ∙ (abort_cases id (clock id) tm _ (abort_transaction-Ends id (clock id) tm) v k).0

-- Every listed transaction is active or has ended.
abbrev AllKnown : List ℕ → TransactionManager → Type 0
AllKnown ids tm =
    (k : ℕ)
    → contains k ids ≡ true
    → (is_some (find k tm.active_transactions) || is_ended (get_transaction k tm)) ≡ true

still_known :
    (id now : ℕ) (tm : TransactionManager) (x : Bool × TransactionManager)
    → Ends aborted id now tm x
    → (k : ℕ)
    → find k x.1.active_transactions ≡ (if id == k then none else find k tm.active_transactions)
    → (is_some (find k tm.active_transactions) || is_ended (get_transaction k tm)) ≡ true
    → (is_some (find k x.1.active_transactions) || is_ended (get_transaction k x.1)) ≡ true
unfolding get_transaction is_completed transaction_state_eq
still_known id now tm (false, tm') (e, same) k f h = rw same h
still_known id now tm (true, tm') (t, e, _, _, _, others) k f h = ground (arith, others k, f, h)

abort_each-ended :
    (ids : List ℕ) (clock : ℕ → ℕ) (tm : TransactionManager)
    → IsValid tm
    → AllKnown ids tm
    → (k : ℕ)
    → is_ended (get_transaction k (abort_each ids clock tm))
      ≡ (contains k ids || is_ended (get_transaction k tm))
unfolding abort_each contains
abort_each-ended [] clock tm v known k = refl
abort_each-ended (id ∷ ids) clock tm v known k =
    let tried = abort_transaction id (clock id) tm in
    let ends = abort_transaction-Ends id (clock id) tm in
    abort_each-ended ids clock tried.1 (abort-IsValid id (clock id) tm v)
      (λ j h.
        still_known id (clock id) tm tried ends j (abort-find j id (clock id) tm)
          (known j (ground (arith, h))))
      k
    ∙ ground (
      arith,
      (abort_cases id (clock id) tm tried ends v k).1 (known id (ground (arith, ==_refl id))),
    )

nothing_found : {V : Type 0} (k : ℕ) (m : OrderedMap V) → length m ≡ 0 → find k m ≡ none
unfolding find
nothing_found k [] h = refl
nothing_found k (e ∷ m) h = absurd (omega (arith, h))

not_active :
    (k : ℕ) (tm : TransactionManager)
    → IsValid tm
    → find k tm.active_transactions ≡ none
    → is_state active (get_transaction k tm) ≡ false
unfolding get_transaction is_completed transaction_state_eq
not_active k tm v gone = elim (Option-cases (find k tm.completed_transactions)) [
  | inl e ↦ ground (arith, gone, e)
  | inr (t, e) ↦ ground (arith, gone, e, v.completed_entry k t e)
]

-- Afterwards no transaction is in the state ACTIVE, the committed ones are those that were, and
-- exactly those that had ended or were active have ended.
pub abort_all_states :
    (clock : ℕ → ℕ) (tm : TransactionManager)
    → IsValid tm
    → (k : ℕ)
    → let tm' = abort_all_transactions clock tm in
      (is_state active (get_transaction k tm') ≡ false)
      × (is_state committed (get_transaction k tm') ≡ is_state committed (get_transaction k tm))
      × (is_ended (get_transaction k tm')
          ≡ (contains k (get_active_transaction_ids tm) || is_ended (get_transaction k tm)))
unfolding abort_all_transactions
abort_all_states clock tm v k =
    let ids = get_active_transaction_ids tm in
    let tm' = abort_each ids clock tm in
    let v' = abort_each-IsValid ids clock tm v in
    let gone : find k tm'.active_transactions ≡ none =
      nothing_found k tm'.active_transactions
        (unfold get_active_transaction_count in (abort_all_transactions_lem clock tm v).0) in
    (
      not_active k tm' v' gone,
      abort_each-committed ids clock tm v k,
      abort_each-ended ids clock tm v
          (λ j h.
            unfold get_active_transaction_ids in
            ground (arith, h, found_is_key j tm.active_transactions))
          k,
    )

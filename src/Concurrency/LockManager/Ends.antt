-- ===== src/Concurrency/LockManager/Ends.antt =====
-- Which calls change `completed_transactions_`, and how; what a transaction keeps until then.
use transaction_manager.Shared.{
  ℕ, [], ◌∷◌, Bool, true, false, ◌||◌, ◌==◌, ==_iff, ◌≡◌, ◌≢◌, refl, ap, ◌∙◌, inl, inr, Bool-cases,
  arith,
}
use transaction_manager.Shared.OrderedSet
use transaction_manager.Shared.OrderedSet.{OrderedSet, contains, contains-insert}
use transaction_manager.Enums.{LockType}
use transaction_manager.Concurrency.LockManager.State.{LockManager, is_complete, has_lock}
use transaction_manager.Concurrency.LockManager.Request.{set_resource_parent, request_lock}
use transaction_manager.Concurrency.LockManager.Release.{
  complete_transaction, mark_complete, Op, parents, requests, releases, completes, step,
}
use transaction_manager.Concurrency.LockManager.Release.{run}
use transaction_manager.Concurrency.LockManager.TwoPhase.{lock_kept_until_complete}
use transaction_manager.Concurrency.LockManager.Rules.{
  request_lock_rule, complete_rule, completed-request_on, completed-release,
}

-- The transactions that have completed are these.
abbrev HasEnds : OrderedSet → LockManager → Type 0
HasEnds ends m = m.completed_transactions ≡ ends

pub completed-request :
    (txn resource : ℕ) (t : LockType) (m : LockManager)
    → (request_lock txn resource t m).1.completed_transactions ≡ m.completed_transactions
completed-request txn resource t m =
    request_lock_rule (HasEnds m.completed_transactions) txn
      (λ r s n e. completed-request_on txn r s n ∙ e) resource t m refl

pub completed_complete :
    (txn : ℕ) (m : LockManager)
    → (complete_transaction txn m).1.completed_transactions
      ≡ OrderedSet.insert txn m.completed_transactions
completed_complete txn m =
    complete_rule (HasEnds (OrderedSet.insert txn m.completed_transactions)) txn
      (λ r n e. completed-release txn r n ∙ e) (λ n e. e) m (unfold mark_complete in refl)

pub is_complete-request :
    (k txn resource : ℕ) (t : LockType) (m : LockManager)
    → is_complete k (request_lock txn resource t m).1 ≡ is_complete k m
unfolding is_complete
is_complete-request k txn resource t m =
    ap (λ (s : OrderedSet). contains k s) (completed-request txn resource t m)

pub is_complete_complete :
    (k txn : ℕ) (m : LockManager)
    → is_complete k (complete_transaction txn m).1 ≡ (txn == k || is_complete k m)
unfolding is_complete
is_complete_complete k txn m =
    ap (λ (s : OrderedSet). contains k s) (completed_complete txn m)
    ∙ contains-insert k txn m.completed_transactions

-- A transaction that has completed stays complete.
pub stays_complete :
    (owner : ℕ) (op : Op) (m : LockManager)
    → is_complete owner m ≡ true
    → is_complete owner (step op m) ≡ true
unfolding step
stays_complete owner (parents child parent) m c = unfold set_resource_parent is_complete in c
stays_complete owner (requests txn resource t) m c = is_complete-request owner txn resource t m ∙ c
stays_complete owner (releases txn resource) m c =
    unfold is_complete in
    ap (λ (s : OrderedSet). contains owner s) (completed-release txn resource m) ∙ c
stays_complete owner (completes txn) m c = is_complete_complete owner txn m ∙ ground (arith, c)

-- The transaction has completed, or holds a lock on the resource.
abbrev pub keeps : ℕ → ℕ → LockManager → Bool
keeps owner resource m = is_complete owner m || has_lock owner resource m

still_held :
    (owner resource : ℕ) (op : Op) (m : LockManager)
    → op ≢ completes owner
    → is_complete owner m ≡ false
    → has_lock owner resource m ≡ true
    → keeps owner resource (step op m) ≡ true
unfolding run
still_held owner resource op m other live lock =
    let (held, _) = lock_kept_until_complete owner resource (op ∷ []) m live lock (other, tt) in
    ground (arith, held)

step-keeps_held :
    (owner resource : ℕ) (op : Op) (m : LockManager)
    → is_complete owner m ≡ false
    → has_lock owner resource m ≡ true
    → keeps owner resource (step op m) ≡ true
step-keeps_held owner resource (parents child parent) m live lock =
    still_held owner resource (parents child parent) m (λ e. absurd (cc)) live lock
step-keeps_held owner resource (requests txn r t) m live lock =
    still_held owner resource (requests txn r t) m (λ e. absurd (cc)) live lock
step-keeps_held owner resource (releases txn r) m live lock =
    still_held owner resource (releases txn r) m (λ e. absurd (cc)) live lock
step-keeps_held owner resource (completes txn) m live lock = elim (Bool-cases (txn == owner)) [
  | inl e ↦ unfold step in ground (arith, is_complete_complete owner txn m, e)
  | inr e ↦
      still_held owner resource (completes txn) m
        (λ same.
          let other : txn ≡ owner = cc in absurd (ground (arith, e, (==_iff txn owner).1 other)))
        live lock
]

-- Every call keeps the locks of the transactions that have not completed.
pub step-keeps :
    (owner resource : ℕ) (op : Op) (m : LockManager)
    → keeps owner resource m ≡ true
    → keeps owner resource (step op m) ≡ true
step-keeps owner resource op m h = elim (Bool-cases (is_complete owner m)) [
  | inl c ↦ ground (arith, stays_complete owner op m c)
  | inr live ↦ step-keeps_held owner resource op m live (ground (arith, live, h))
]

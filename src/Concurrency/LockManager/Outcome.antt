-- ===== src/Concurrency/LockManager/Outcome.antt =====
-- What the answer of a lock request means, for the resource and for its ancestors.
use transaction_manager.Shared.{
  ℕ, Bool, ap, true, false, ◌||◌, List, [], ◌∷◌, ◌++◌, reverse, ◌≡◌, ◌≢◌, refl, subst, ◌==◌, arith,
  Bool-cases, inl, inr, ==_iff,
}
use transaction_manager.Enums.{LockType, none}
use transaction_manager.Concurrency.LockManager.State.{LockManager, at, is_complete, has_lock}
use transaction_manager.Concurrency.LockManager.Request.{
  request_lock_on_resource, ancestors, lock_each, ensure_ancestor_intention_locks, request_lock,
  get_ancestor_intention_type,
}
use transaction_manager.Concurrency.LockManager.Sets.{has_lock-eq-holds}
use transaction_manager.Shared.OrderedSet.{contains}
use transaction_manager.Concurrency.LockManager.Rules.{completed-request_on, ensure_rule}
use transaction_manager.Concurrency.LockManager.Ancestors.{IsAncestor, ancestors_exact}
use mathlib.Core.List.{reverse-cons}
use transaction_manager.Concurrency.LockManager.TwoPhase.{IsHeld, request_on-IsHeld}
use transaction_manager.Concurrency.LockManager.Answers.{
  covers, covers-holds, Answers, request_on-Answers,
}

pub request_lock_completed :
    (txn resource : ℕ) (t : LockType) (m : LockManager)
    → is_complete txn m ≡ true
    → request_lock txn resource t m ≡ (false, m)
unfolding request_lock
request_lock_completed txn resource t m c = rw c

abbrev HoldsAll : ℕ → List ℕ → LockManager → Type 0
HoldsAll txn [] m = Unit
HoldsAll txn (r ∷ rs) m = IsHeld txn r m × HoldsAll txn rs m

HoldsAll-request :
    (txn resource : ℕ) (t : LockType) (rs : List ℕ) (m : LockManager)
    → HoldsAll txn rs m
    → HoldsAll txn rs (request_lock_on_resource txn resource t m).1
HoldsAll-request txn resource t [] m h = tt
HoldsAll-request txn resource t (r ∷ rs) m h =
    (request_on-IsHeld txn r txn resource t m h.0, HoldsAll-request txn resource t rs m h.1)

HoldsAll-contains :
    (txn r : ℕ) (rs : List ℕ) (m : LockManager)
    → HoldsAll txn rs m
    → contains r rs ≡ true
    → has_lock txn r m ≡ true
unfolding contains
HoldsAll-contains txn r [] m h c = absurd (ground arith)
HoldsAll-contains txn r (x ∷ rs) m h c = elim (Bool-cases (x == r)) [
  | inl e ↦
      let same : x ≡ r = (==_iff x r).0 e in
      subst (λ k. has_lock txn k m ≡ true) same (rw has_lock-eq-holds h.0.lock)
  | inr e ↦ HoldsAll-contains txn r rs m h.1 (ground arith)
]

granted-IsHeld :
    (txn resource : ℕ) (t : LockType) (m : LockManager)
    → is_complete txn m ≡ false
    → (request_lock_on_resource txn resource t m).0 ≡ true
    → IsHeld txn resource (request_lock_on_resource txn resource t m).1
granted-IsHeld txn resource t m c g = record {
  live = unfold is_complete in rw (completed-request_on txn resource t m) c;
  lock = covers-holds txn t _ (
      subst (λ b. Answers txn resource t m (b, (request_lock_on_resource txn resource t m).1)) g
        (request_on-Answers txn resource t m c));
}

lock_each-HoldsAll :
    (txn : ℕ) (t : LockType) (rs done : List ℕ) (m : LockManager)
    → is_complete txn m ≡ false
    → HoldsAll txn done m
    → (lock_each txn t rs m).0 ≡ true
    → HoldsAll txn rs (lock_each txn t rs m).1 × HoldsAll txn done (lock_each txn t rs m).1
unfolding lock_each
lock_each-HoldsAll txn t [] done m c h g = (tt, h)
lock_each-HoldsAll txn t (r ∷ rs) done m c h g =
    elim (Bool-cases (request_lock_on_resource txn r t m).0) [
      | inr e ↦ absurd (ground arith)
      | inl e ↦
          let m' = (request_lock_on_resource txn r t m).1 in
          let first = granted-IsHeld txn r t m c e in
          let (later, before) =
            lock_each-HoldsAll txn t rs (r ∷ done) m' first.live
              (first, HoldsAll-request txn r t done m h) (rw e at g) in
          rw e ((before.0, later), before.1)
    ]

contains-append :
    (a : ℕ) (xs ys : List ℕ) → contains a (xs ++ ys) ≡ (contains a xs || contains a ys)
unfolding contains
contains-append a [] ys = refl
contains-append a (x ∷ xs) ys = ground (arith, contains-append a xs ys)

contains-reverse : (a : ℕ) (xs : List ℕ) → contains a (reverse xs) ≡ contains a xs
unfolding contains
contains-reverse a [] = refl
contains-reverse a (x ∷ xs) =
    rw (reverse-cons x xs, contains-append a (reverse xs) (x ∷ []), contains-reverse a xs)
      (ground arith)

ensured-HoldsAll :
    (txn resource : ℕ) (t : LockType) (m : LockManager)
    → is_complete txn m ≡ false
    → t ≢ none
    → (ensure_ancestor_intention_locks txn resource t m).0 ≡ true
    → HoldsAll txn
        (reverse (ancestors resource m))
        (ensure_ancestor_intention_locks txn resource t m).1
unfolding ensure_ancestor_intention_locks get_ancestor_intention_type
ensured-HoldsAll txn resource none m c ne g = absurd (ne refl)
ensured-HoldsAll txn resource t m c ne g =
    (lock_each-HoldsAll txn (get_ancestor_intention_type t) (reverse (ancestors resource m)) [] m c
      tt g).0

module _ (txn resource : ℕ) (t : LockType) (m : LockManager) (live : is_complete txn m ≡ false)
    (granted : (request_lock txn resource t m).0 ≡ true) where
  ensured : LockManager
  ensured = (ensure_ancestor_intention_locks txn resource t m).1

  ensured-live : is_complete txn ensured ≡ false
  unfolding ensured
  ensured-live =
      ensure_rule (λ n. is_complete txn n ≡ false) txn
        (λ r s n l. unfold is_complete in rw (completed-request_on txn r s n) l) resource t m live

  -- A granted request had its ancestors locked, and was then granted on the resource.
  granted_parts :
      ((ensure_ancestor_intention_locks txn resource t m).0 ≡ true)
      × ((request_lock txn resource t m).1 ≡ (request_lock_on_resource txn resource t ensured).1)
      × ((request_lock_on_resource txn resource t ensured).0 ≡ true)
  unfolding request_lock ensured
  granted_parts = ground arith

  -- A granted request leaves the transaction with a lock of the requested type, or an exclusive
  -- one, on the resource.
  pub request_lock-covers :
      covers txn t (at resource (request_lock txn resource t m).1.resource_locks) ≡ true
  request_lock-covers =
      let (_, final, on_resource) = granted_parts in
      rw final (
        subst
          (λ b.
            Answers txn resource t ensured (b, (request_lock_on_resource txn resource t ensured).1))
          on_resource (request_on-Answers txn resource t ensured ensured-live))

  -- A granted request for any type but NONE leaves the transaction with a lock on every resource
  -- above the resource.
  pub request_lock_locks_ancestors :
      (a : ℕ)
      → t ≢ none
      → IsAncestor m.resource_parent resource a
      → has_lock txn a (request_lock txn resource t m).1 ≡ true
  request_lock_locks_ancestors a ne i =
      let (all_locked, final, _) = granted_parts in
      let path = reverse (ancestors resource m) in
      let locked : HoldsAll txn path ensured =
        unfold ensured in ensured-HoldsAll txn resource t m live ne all_locked in
      rw final (
        HoldsAll-contains txn a path (request_lock_on_resource txn resource t ensured).1
          (HoldsAll-request txn resource t path ensured locked)
          (rw (contains-reverse a (ancestors resource m)) ((ancestors_exact resource a m).1 i)))

-- The same without asking whether the transaction has completed: completed ones are refused.
pub granted-covers :
    (txn resource : ℕ) (t : LockType) (m : LockManager)
    → (request_lock txn resource t m).0 ≡ true
    → covers txn t (at resource (request_lock txn resource t m).1.resource_locks) ≡ true
granted-covers txn resource t m granted = elim (Bool-cases (is_complete txn m)) [
  | inr live ↦ request_lock-covers txn resource t m live granted
  | inl done ↦ absurd (
      ground (
        arith,
        ap (λ (p : Bool × LockManager). p.0) (request_lock_completed txn resource t m done),
        granted,
      ))
]

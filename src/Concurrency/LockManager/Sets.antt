-- ===== src/Concurrency/LockManager/Sets.antt =====
-- How the loops over one set of locks read the set after an insertion or a removal, and how `at`
-- reads a map after a write.
use transaction_manager.Shared.{
  ℕ, zero, suc, true, false, not, ◌&&◌, ◌||◌, some, List, [], ◌∷◌, ◌≡◌, refl, ◌==◌, if◌then◌else◌,
  arith, Bool-cases, inl, inr,
}
use mathlib.Core.Option.{none as nothing}
use transaction_manager.Shared.OrderedMap
use transaction_manager.Shared.OrderedMap.{OrderedMap, find, find-insert, find-erase}
use transaction_manager.Enums.{LockType}
use transaction_manager.Concurrency.Lock.{Lock, conflicts}
use transaction_manager.Concurrency.LockManager.State.{
  LockManager, at, with_entry, insert_lock, find_lock, erase_lock, compatible_with_others,
  compatible_with_all, holds, remove_locks, has_lock,
}
use transaction_manager.Concurrency.LockManager.Release.{erase_if_empty}

module _ {ℓ} {A : Type ℓ} (j k : ℕ) (m : OrderedMap (List A)) where
  pub at-insert : (xs : List A) → at j (OrderedMap.insert k xs m) ≡ (if k == j then xs else at j m)
  at-insert xs = ground (arith, find-insert j k xs m)

  pub read-at-insert {κ} :
      {B : Type κ} (f : List A → B) (xs : List A)
      → f (at j (OrderedMap.insert k xs m)) ≡ (if k == j then f xs else f (at j m))
  read-at-insert f xs = elim (Bool-cases (k == j)) [
    | inl e ↦ rw (at-insert xs, e)
    | inr e ↦ rw (at-insert xs, e)
  ]

  pub at-erase : at j (OrderedMap.erase k m) ≡ (if k == j then [] else at j m)
  at-erase = ground (arith, find-erase j k m)

  -- The entry that operator[] makes does not change what `at` reads.
  pub at-with_entry : at j (with_entry k m) ≡ at j m
  unfolding with_entry
  at-with_entry = ground (arith, find-insert j k (at k m) m)

  pub at-erase_if_empty : at j (erase_if_empty k m) ≡ at j m
  unfolding erase_if_empty
  at-erase_if_empty = ground (arith, find-erase j k m)

pub has_lock-eq-holds :
    (txn resource : ℕ) (m : LockManager)
    → has_lock txn resource m ≡ holds txn (at resource m.resource_locks)
unfolding has_lock holds
has_lock-eq-holds txn resource m = ground arith

pub holds-insert_lock :
    (txn i : ℕ) (new : Lock) (ls : List Lock)
    → holds txn (insert_lock i new ls) ≡ (new.transaction_id == txn || holds txn ls)
unfolding holds insert_lock
holds-insert_lock txn i new [] = refl
holds-insert_lock txn zero new (l ∷ ls) = refl
holds-insert_lock txn (suc i) new (l ∷ ls) = ground (arith, holds-insert_lock txn i new ls)

pub holds-erase_lock :
    (txn other : ℕ) (ls : List Lock)
    → (other == txn) ≡ false
    → holds txn (erase_lock other ls) ≡ holds txn ls
unfolding holds erase_lock
holds-erase_lock txn other [] h = refl
holds-erase_lock txn other (l ∷ ls) h = ground (arith, holds-erase_lock txn other ls h)

-- What an upgrade takes out of the set comes back with the new lock.
pub holds-erase_own :
    (txn other : ℕ) (ls : List Lock)
    → (other == txn || holds txn (erase_lock other ls)) ≡ (other == txn || holds txn ls)
holds-erase_own txn other ls = elim (Bool-cases (other == txn)) [
  | inl e ↦ rw e
  | inr e ↦ rw (holds-erase_lock txn other ls e)
]

pub holds-remove_locks :
    (txn other : ℕ) (ls : List Lock)
    → holds txn (remove_locks other ls) ≡ (if other == txn then false else holds txn ls)
unfolding holds remove_locks
holds-remove_locks txn other [] = ground arith
holds-remove_locks txn other (l ∷ ls) = ground (arith, holds-remove_locks txn other ls)

pub find_lock-none : (txn : ℕ) (ls : List Lock) → find_lock txn ls ≡ nothing → holds txn ls ≡ false
unfolding find_lock holds
find_lock-none txn [] h = refl
find_lock-none txn (l ∷ ls) h = ground (arith, find_lock-none txn ls)

pub find_lock-some :
    (txn : ℕ) (l : Lock) (ls : List Lock)
    → find_lock txn ls ≡ some l
    → (holds txn ls ≡ true) × (l.transaction_id ≡ txn)
unfolding find_lock holds
find_lock-some txn l [] h = absurd (ground arith)
find_lock-some txn l (x ∷ ls) h = ground (arith, find_lock-some txn l ls)

-- Every lock of another transaction agrees with every lock of `txn`.
module _ (txn : ℕ) (t : LockType) where
  pub others-insert_lock :
      (i : ℕ) (new : Lock) (ls : List Lock)
      → compatible_with_others txn t (insert_lock i new ls) ≡ (
          (new.transaction_id == txn || not (conflicts new.lock_type t))
          && compatible_with_others txn t ls)
  unfolding compatible_with_others insert_lock
  others-insert_lock i new [] = refl
  others-insert_lock zero new (l ∷ ls) = refl
  others-insert_lock (suc i) new (l ∷ ls) = ground (arith, others-insert_lock i new ls)

  pub others-erase_lock :
      (other : ℕ) (ls : List Lock)
      → compatible_with_others txn t ls ≡ true
      → compatible_with_others txn t (erase_lock other ls) ≡ true
  unfolding compatible_with_others erase_lock
  others-erase_lock other [] h = refl
  others-erase_lock other (l ∷ ls) h = ground (arith, others-erase_lock other ls)

  pub others-remove_locks :
      (other : ℕ) (ls : List Lock)
      → compatible_with_others txn t ls ≡ true
      → compatible_with_others txn t (remove_locks other ls) ≡ true
  unfolding compatible_with_others remove_locks
  others-remove_locks other [] h = refl
  others-remove_locks other (l ∷ ls) h = ground (arith, others-remove_locks other ls)

  pub others_of_all :
      (ls : List Lock) → compatible_with_all t ls ≡ true → compatible_with_others txn t ls ≡ true
  unfolding compatible_with_others compatible_with_all
  others_of_all [] h = refl
  others_of_all (l ∷ ls) h = ground (arith, others_of_all ls)

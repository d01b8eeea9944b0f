-- ===== src/Concurrency/Lock.antt =====
-- src/concurrency/Lock.cpp, include/concurrency/Lock.h, and the compatibility test of
-- src/concurrency/LockManager.cpp.
use transaction_manager.Shared.{ℕ, ◌≡◌, Bool, true, false, not, ◌&&◌, ◌||◌, if◌then◌else◌, arith}
use transaction_manager.Enums.{
  LockType, none, shared, exclusive, intention_shared, intention_exclusive, lock_type_eq,
}

-- The fields are set once, by the constructor.
pub record Lock : Type 0 where
  pub transaction_id : ℕ
  pub lock_type : LockType

unfoldable pub is_compatible : LockType → LockType → Bool
unfolding lock_type_eq
is_compatible existing requested =
    if lock_type_eq existing exclusive || lock_type_eq requested exclusive
    then false
    else if lock_type_eq existing shared && lock_type_eq requested intention_exclusive
    then false
    else if lock_type_eq existing intention_exclusive && lock_type_eq requested shared
    then false
    else true

-- The test that the loops make: compatible both ways round.
unfoldable pub conflicts : LockType → LockType → Bool
unfolding is_compatible
conflicts held requested = not (is_compatible held requested) || not (is_compatible requested held)

-- The locks that take the resource as a whole, for reading or for writing.
abbrev pub takes_whole : LockType → Bool
takes_whole shared = true
takes_whole exclusive = true
takes_whole _ = false

-- The locks under which the resource, or something below it, is to be changed.
abbrev pub alters : LockType → Bool
alters exclusive = true
alters intention_exclusive = true
alters _ = false

-- Two lock types are incompatible exactly if one of the two takes the resource as a whole and one of
-- the two, the same or the other, is for changing the resource or something below it.
-- `isCompatible` gives the same answer in either order of its arguments, and so the test of the
-- loops, which asks it both ways round, is no stricter than one call.
pub conflicts_table :
    (a b : LockType)
    → (is_compatible a b ≡ not ((takes_whole a || takes_whole b) && (alters a || alters b)))
      × (is_compatible a b ≡ is_compatible b a)
      × (conflicts a b ≡ not (is_compatible a b))
unfolding conflicts is_compatible lock_type_eq
conflicts_table none b = ground arith
conflicts_table shared b = ground arith
conflicts_table exclusive b = ground arith
conflicts_table intention_shared b = ground arith
conflicts_table intention_exclusive b = ground arith

pub conflicts_comm : (a b : LockType) → conflicts a b ≡ conflicts b a
unfolding conflicts
conflicts_comm a b = ground arith

-- ===== src/Enums.antt =====
-- include/utils/enums.h: the enumerations that the program's logic reads.
use transaction_manager.Shared.{Bool, true, false, ◌↔◌, ◌≡◌, arith}

pub data TransactionState : Type 0 where
  active committed aborted waiting : TransactionState

pub data LockType : Type 0 where
  none shared exclusive intention_shared intention_exclusive : LockType

pub data RecoveryState : Type 0 where
  analysis redo undo complete : RecoveryState

-- `==` on LockType.
unfoldable pub lock_type_eq : LockType → LockType → Bool
lock_type_eq LockType.none LockType.none = true
lock_type_eq shared shared = true
lock_type_eq exclusive exclusive = true
lock_type_eq intention_shared intention_shared = true
lock_type_eq intention_exclusive intention_exclusive = true
lock_type_eq _ _ = false

-- `==` on TransactionState.
unfoldable pub transaction_state_eq : TransactionState → TransactionState → Bool
transaction_state_eq active active = true
transaction_state_eq committed committed = true
transaction_state_eq aborted aborted = true
transaction_state_eq waiting waiting = true
transaction_state_eq _ _ = false

pub lock_type_eq_iff : (a b : LockType) → (lock_type_eq a b ≡ true) ↔ (a ≡ b)
unfolding lock_type_eq
lock_type_eq_iff a b = ground arith

-- ===== src/Transaction/Transaction.antt =====
-- src/transaction/Transaction.cpp, include/transaction/Transaction.h. The clock is an argument of
-- each call that reads it; the epoch is 0.
use transaction_manager.Shared.{
  ℕ, ◌+◌, ◌%◌, ◌≡◌, refl, Bool, false, ◌||◌, List, [], ◌∷◌, ◌++◌, Bytes, ◌==◌, if◌then◌else◌, arith,
  Bool-cases, inl, inr,
}
use transaction_manager.Enums.{TransactionState, active, committed, aborted, transaction_state_eq}
use transaction_manager.Constants.{u32_mod}

pub record Transaction : Type 0 where
  pub transaction_id : ℕ
  pub state : TransactionState
  pub start_time : ℕ
  pub end_time : ℕ
  pub last_activity_time : ℕ
  pub accessed_records : List ℕ
  pub read_count : ℕ
  pub write_count : ℕ
  pub error_message : Bytes

-- The constructor reads the clock twice.
unfoldable pub create : ℕ → ℕ → ℕ → Transaction
create transaction_id start last_activity = record {
  transaction_id = transaction_id;
  state = active;
  start_time = start;
  end_time = 0;
  last_activity_time = last_activity;
  accessed_records = [];
  read_count = 0;
  write_count = 0;
  error_message = [];
}

unfoldable pub set_state : TransactionState → ℕ → Transaction → Transaction
unfolding transaction_state_eq
set_state state now t =
    if transaction_state_eq state committed || transaction_state_eq state aborted
    then record t { state = state; end_time = now }
    else record t { state = state }

-- std::find over the vector, as a test.
unfoldable pub has_accessed : ℕ → List ℕ → Bool
has_accessed k [] = false
has_accessed k (x ∷ xs) = x == k || has_accessed k xs

unfoldable pub record_accessed_record : ℕ → ℕ → Transaction → Transaction
record_accessed_record record_id now t = record t {
  accessed_records =
      if has_accessed record_id t.accessed_records
      then t.accessed_records
      else t.accessed_records ++ record_id ∷ [];
  last_activity_time = now;
}

unfoldable pub increment_read_count : ℕ → Transaction → Transaction
increment_read_count now t = record t {
  read_count = (t.read_count + 1) % u32_mod;
  last_activity_time = now;
}

unfoldable pub increment_write_count : ℕ → Transaction → Transaction
increment_write_count now t = record t {
  write_count = (t.write_count + 1) % u32_mod;
  last_activity_time = now;
}

unfoldable pub is_completed : Transaction → Bool
unfolding transaction_state_eq
is_completed t = transaction_state_eq t.state committed || transaction_state_eq t.state aborted

unfoldable pub set_error_message : Bytes → Transaction → Transaction
set_error_message message t = record t { error_message = message }

-- No id stands twice in a list.
abbrev pub IsDistinct : List ℕ → Type 0
IsDistinct [] = Unit
IsDistinct (x ∷ xs) = (has_accessed x xs ≡ false) × IsDistinct xs

has_accessed-append :
    (k a : ℕ) (xs : List ℕ) → has_accessed k (xs ++ a ∷ []) ≡ (has_accessed k xs || a == k)
unfolding has_accessed
has_accessed-append k a [] = ground arith
has_accessed-append k a (x ∷ xs) = ground (arith, has_accessed-append k a xs)

append-IsDistinct :
    (a : ℕ) (xs : List ℕ) → has_accessed a xs ≡ false → IsDistinct xs → IsDistinct (xs ++ a ∷ [])
unfolding has_accessed
append-IsDistinct a [] h d = (refl, tt)
append-IsDistinct a (x ∷ xs) h d =
    ground (arith, append-IsDistinct a xs, has_accessed-append x a xs)

-- Recording an access keeps the ids of a transaction distinct, and afterwards lists exactly the
-- ids that it listed before and the one accessed.
pub record_accessed_record-IsDistinct :
    (k now : ℕ) (t : Transaction)
    → IsDistinct t.accessed_records
    → let t' = record_accessed_record k now t in
      IsDistinct t'.accessed_records
      × ((j : ℕ)
          → has_accessed j t'.accessed_records ≡ (k == j || has_accessed j t.accessed_records))
unfolding record_accessed_record
record_accessed_record-IsDistinct k now t d =
    elim (Bool-cases (has_accessed k t.accessed_records)) [
      | inl e ↦ rw e (d, λ j. ground arith)
      | inr e ↦ rw e (
        append-IsDistinct k t.accessed_records e d,
        λ j. ground (arith, has_accessed-append j k t.accessed_records),
      )
    ]

-- `setState` decides `isCompleted` and, exactly for the two final states, stamps the end time;
-- the identity and the counters of the transaction stay.
pub set_state_lem :
    (s : TransactionState) (now : ℕ) (t : Transaction)
    → let t' = set_state s now t in
      (t'.state ≡ s)
      × (t'.end_time ≡ (if is_completed t' then now else t.end_time))
      × (t'.transaction_id ≡ t.transaction_id)
      × (t'.accessed_records ≡ t.accessed_records)
unfolding set_state is_completed
set_state_lem s now t = ground arith

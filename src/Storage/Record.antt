-- ===== src/Storage/Record.antt =====
-- src/storage/Record.cpp, include/storage/Record.h. The clock is an argument of each call that
-- reads it.
use transaction_manager.Shared.{
  ℕ, ◌≤◌, ◌<◌, ◌≡◌, Bytes, [], length, ltb, if◌then◌else◌, Result, ok, raise, invalid_argument,
  arith,
}
use transaction_manager.Constants.{u32_mod, max_record_size}

pub record Record : Type 0 where
  pub record_id : ℕ
  pub payload : Bytes
  pub created_time : ℕ
  pub modified_time : ℕ

-- The constructor reads the clock twice.
unfoldable pub create : ℕ → ℕ → ℕ → Record
create record_id created modified = record {
  record_id = record_id;
  payload = [];
  created_time = created;
  modified_time = modified;
}

-- `raise` leaves the record as it was: the size is tested before the first write.
unfoldable pub set_data : Bytes → ℕ → Record → Result Record
set_data payload now r =
    if ltb max_record_size (length payload)
    then raise invalid_argument
    else ok (record r { payload = payload; modified_time = now })

unfoldable pub get_size : Record → ℕ
get_size r = length r.payload

-- What every record satisfies that is built by `create` and changed by `set_data` alone.
pub record IsValid (r : Record) : Type 0 where
  pub id_in_range : r.record_id < u32_mod
  pub size_in_range : length r.payload ≤ max_record_size

pub create-IsValid : (k created modified : ℕ) → k < u32_mod → IsValid (create k created modified)
unfolding create
create-IsValid k created modified h = record { id_in_range = h; size_in_range = omega arith }

pub set_data-IsValid :
    (payload : Bytes) (now : ℕ) (r r' : Record)
    → IsValid r
    → set_data payload now r ≡ ok r'
    → IsValid r'
unfolding set_data
set_data-IsValid payload now r r' v h = ground arith

pub record_id-set_data :
    (payload : Bytes) (now : ℕ) (r r' : Record)
    → set_data payload now r ≡ ok r'
    → r'.record_id ≡ r.record_id
unfolding set_data
record_id-set_data payload now r r' h = ground arith

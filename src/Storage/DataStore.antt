-- ===== src/Storage/DataStore.antt =====
-- src/storage/DataStore.cpp, include/storage/DataStore.h. The map owns the records: it holds them
-- by value, since the program changes a stored record through the store alone. A pointer that
-- `get_record` handed out before an update would see the update; the program reads it at once.
pub mod Refinement
pub mod Invariant
use transaction_manager.Shared.{
  ℕ, ◌+◌, ◌%◌, Bool, true, false, Option, none, some, [], ◌∷◌, List, Bytes, length, is_some,
  if◌then◌else◌, Result, ok, raise,
}
use transaction_manager.Shared.OrderedMap
use transaction_manager.Shared.OrderedMap.{OrderedMap}
use transaction_manager.Constants.{u64_mod}
use transaction_manager.Storage.Record.{Record, set_data, get_size}

pub record DataStore : Type 0 where
  pub records : OrderedMap Record

unfoldable pub empty : DataStore
empty = record { records = [] }

-- `none` is the null pointer.
unfoldable pub insert_record : Option Record → DataStore → Bool × DataStore
insert_record none s = (false, s)
insert_record (some r) s =
    if is_some (OrderedMap.find r.record_id s.records)
    then (false, s)
    else (true, record { records = OrderedMap.insert r.record_id r s.records })

unfoldable pub get_record : ℕ → DataStore → Option Record
get_record record_id s = OrderedMap.find record_id s.records

unfoldable pub record_exists : ℕ → DataStore → Bool
record_exists record_id s = is_some (OrderedMap.find record_id s.records)

unfoldable pub delete_record : ℕ → DataStore → Bool × DataStore
delete_record record_id s =
    if is_some (OrderedMap.find record_id s.records)
    then (true, record { records = OrderedMap.erase record_id s.records })
    else (false, s)

-- What `updateRecord` does with the iterator: `setData` may throw, and then nothing is written.
unfoldable pub write_back : ℕ → Result Record → DataStore → Result Bool × DataStore
write_back record_id (ok r) s =
    (ok true, record { records = OrderedMap.insert record_id r s.records })
write_back record_id (raise e) s = (raise e, s)

unfoldable pub update_record : ℕ → Bytes → ℕ → DataStore → Result Bool × DataStore
unfolding write_back
update_record record_id payload now s = elim (OrderedMap.find record_id s.records) [
  | none ↦ (ok false, s)
  | some r ↦ write_back record_id (set_data payload now r) s
]

unfoldable pub get_record_count : DataStore → ℕ
get_record_count s = length s.records

-- The loop of `getTotalSize`; `total` is a size_t.
unfoldable pub add_sizes : ℕ → OrderedMap Record → ℕ
add_sizes total [] = total
add_sizes total ((_, r) ∷ m) = add_sizes ((total + get_size r) % u64_mod) m

unfoldable pub get_total_size : DataStore → ℕ
unfolding add_sizes
get_total_size s = add_sizes 0 s.records

unfoldable pub get_all_record_ids : DataStore → List ℕ
get_all_record_ids s = OrderedMap.keys s.records

unfoldable pub clear : DataStore → DataStore
clear s = record { records = [] }

-- The operations that may change the store.
pub data Op : Type 0 where
  insert : Option Record → Op
  update : ℕ → Bytes → ℕ → Op
  delete : ℕ → Op
  clear_all : Op

abbrev pub total_op : Bool × DataStore → Result Bool × DataStore
total_op (b, s) = (ok b, s)

unfoldable pub step : Op → DataStore → Result Bool × DataStore
step (insert r) s = total_op (insert_record r s)
step (update k payload now) s = update_record k payload now s
step (delete k) s = total_op (delete_record k s)
step clear_all s = (ok true, clear s)

unfoldable pub run : List Op → DataStore → DataStore
run [] s = s
run (op ∷ ops) s = run ops (step op s).1

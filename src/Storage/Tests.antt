-- ===== src/Storage/Tests.antt =====
-- The store at concrete inputs.
use transaction_manager.Shared.{
  ℕ, ◌<◌, ◌^◌, true, false, none, some, List, [], ◌∷◌, ◌≡◌, refl, arith,
}
use transaction_manager.Shared.OrderedMap
use transaction_manager.Storage.Record.{Record, set_data, get_size}
use transaction_manager.Storage.Record
use transaction_manager.Storage.DataStore.{
  write_back, add_sizes, DataStore, Op, insert, update, delete, empty, insert_record, get_record,
  record_exists, delete_record, update_record, get_record_count, get_total_size, get_all_record_ids,
  clear, step, run,
}
use transaction_manager.Storage.DataStore.Refinement.{view, spec_step, step-refines}
use transaction_manager.Storage.DataStore.Invariant.{
  AllLegal, IsWellFormed, run-IsWellFormed, sum_sizes, get_total_size_exact,
}

abbrev small : ℕ → Record
small k = record { record_id = k; payload = 65 ∷ 66 ∷ []; created_time = 1; modified_time = 1 }

-- The second insertion of 7 is refused, and so is the update of a missing record.
abbrev calls : List Op
calls =
    insert (some (small 7))
    ∷ insert (some (small 3))
    ∷ insert none
    ∷ insert (some (small 7))
    ∷ update 3 (67 ∷ []) 5
    ∷ update 9 (67 ∷ []) 5
    ∷ []

abbrev store : DataStore
store = run calls empty

store_tests :
    (get_all_record_ids store ≡ 3 ∷ 7 ∷ [])
    × (get_total_size store ≡ 3)
    × (get_record_count store ≡ 2)
    × (record_exists 7 store ≡ true)
    × (get_record 9 store ≡ none)
    × ((delete_record 9 store).0 ≡ false)
    × (get_record_count (clear store) ≡ 0)
unfolding run step empty insert_record get_record record_exists delete_record update_record
    write_back set_data get_size get_record_count get_total_size add_sizes get_all_record_ids clear
    OrderedMap.find OrderedMap.insert OrderedMap.erase OrderedMap.keys
store_tests = (refl, refl, refl, refl, refl, refl, refl)

step-refines_example :
    ((step (delete 7) store).0 ≡ (spec_step (delete 7) (view store)).0)
    × (view (step (delete 7) store).1 ≡ (spec_step (delete 7) (view store)).1)
step-refines_example = step-refines (delete 7) store

empty-IsWellFormed : IsWellFormed empty
unfolding empty
empty-IsWellFormed = record { ordered = tt; entries = tt }

small-IsValid : (k : ℕ) → k < 2 ^ 32 → Record.IsValid (small k)
small-IsValid k h = record { id_in_range = h; size_in_range = omega arith }

calls-AllLegal : AllLegal calls
calls-AllLegal = (
  small-IsValid 7 (omega arith),
  (small-IsValid 3 (omega arith), (tt, (small-IsValid 7 (omega arith), (tt, (tt, tt))))),
)

store-IsWellFormed : IsWellFormed store
store-IsWellFormed = run-IsWellFormed calls empty calls-AllLegal empty-IsWellFormed

run-IsWellFormed_example : IsWellFormed store
run-IsWellFormed_example = run-IsWellFormed calls empty calls-AllLegal empty-IsWellFormed

get_total_size_exact_example : get_total_size store ≡ sum_sizes store.records
get_total_size_exact_example = get_total_size_exact store store-IsWellFormed

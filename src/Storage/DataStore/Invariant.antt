-- ===== src/Storage/DataStore/Invariant.antt =====
-- The store's invariant, and what it gives for the statistics.
use transaction_manager.Shared.{
  ℕ, suc, ◌+◌, ◌*◌, ◌%◌, ◌≤◌, ◌<◌, ◌≡◌, refl, List, [], ◌∷◌, none, some, Bytes, length,
  Option-cases, Bool-cases, is_some, Result, ok, raise, arith, ◌∙◌, inl, inr,
}
use transaction_manager.Shared.OrderedMap.{
  OrderedMap, find, insert, erase, IsOrdered, AscendsFrom, insert-AscendsFrom, erase-AscendsFrom,
}
use transaction_manager.Constants.{u32_mod, u64_mod, max_record_size}
use transaction_manager.Storage.Record.{
  Record, set_data, get_size, set_data-IsValid, record_id-set_data,
}
use transaction_manager.Storage.Record
use transaction_manager.Storage.DataStore.{
  DataStore, Op, empty, update, delete, clear_all, insert_record, update_record, delete_record,
  write_back, add_sizes, get_total_size, clear, step, run,
}
use transaction_manager.Storage.DataStore

-- Every entry stands under the id of its record, which is in range and of a legal size.
abbrev pub Entries : OrderedMap Record → Type 0
Entries [] = Unit
Entries ((k, r) ∷ m) = (r.record_id ≡ k) × Record.IsValid r × Entries m

pub record IsWellFormed (s : DataStore) : Type 0 where
  pub ordered : IsOrdered s.records
  pub entries : Entries s.records

find-Entries :
    (k : ℕ) (r : Record) (m : OrderedMap Record)
    → Entries m
    → find k m ≡ some r
    → (r.record_id ≡ k) × Record.IsValid r
unfolding find
find-Entries k r [] h e = absurd (cc)
find-Entries k r ((j, x) ∷ m) h e = ground (arith, find-Entries k r m h.2)

insert-Entries :
    (k : ℕ) (r : Record) (m : OrderedMap Record)
    → r.record_id ≡ k
    → Record.IsValid r
    → Entries m
    → Entries (insert k r m)
unfolding insert
insert-Entries k r [] e v h = (e, v, tt)
insert-Entries k r ((j, x) ∷ m) e v h = ground (arith, insert-Entries k r m e v h.2)

erase-Entries : (k : ℕ) (m : OrderedMap Record) → Entries m → Entries (erase k m)
unfolding erase
erase-Entries k [] h = tt
erase-Entries k ((j, x) ∷ m) h = ground (arith, erase-Entries k m h.2)

-- The records that a client hands in are legal ones.
abbrev pub Legal : Op → Type 0
Legal (DataStore.insert (some r)) = Record.IsValid r
Legal _ = Unit

put-IsWellFormed :
    (k : ℕ) (r : Record) (s : DataStore)
    → r.record_id ≡ k
    → Record.IsValid r
    → IsWellFormed s
    → IsWellFormed (record { records = insert k r s.records })
put-IsWellFormed k r s e v h = record {
  ordered = insert-AscendsFrom k r 0 s.records (omega arith) h.ordered;
  entries = insert-Entries k r s.records e v h.entries;
}

erase-IsWellFormed :
    (k : ℕ) (s : DataStore) → IsWellFormed s → IsWellFormed (record { records = erase k s.records })
erase-IsWellFormed k s h = record {
  ordered = erase-AscendsFrom k 0 s.records h.ordered;
  entries = erase-Entries k s.records h.entries;
}

update-IsWellFormed :
    (k : ℕ) (payload : Bytes) (now : ℕ) (s : DataStore)
    → IsWellFormed s
    → IsWellFormed (update_record k payload now s).1
unfolding update_record
update-IsWellFormed k payload now s h = elim (Option-cases (find k s.records)) [
  | inl e ↦ rw (e, update_record) h
  | inr (r, e) ↦
      let (id, v) = find-Entries k r s.records h.entries e in
      rw (e, update_record) (written r id v (set_data payload now r) refl)
]
  where
    written :
        (r : Record)
        → r.record_id ≡ k
        → Record.IsValid r
        → (w : Result Record) → set_data payload now r ≡ w
        → IsWellFormed (write_back k w s).1
    written r id v (raise x) e = h
    written r id v (ok r') e =
        put-IsWellFormed k r' s (record_id-set_data payload now r r' e ∙ id)
          (set_data-IsValid payload now r r' v e) h

pub step-IsWellFormed :
    (op : Op) (s : DataStore) → Legal op → IsWellFormed s → IsWellFormed (step op s).1
unfolding step insert_record delete_record
step-IsWellFormed (DataStore.insert none) s l h = h
step-IsWellFormed (DataStore.insert (some r)) s l h =
    elim (Bool-cases (is_some (find r.record_id s.records))) [
      | inl e ↦ rw e h
      | inr e ↦ rw e (put-IsWellFormed r.record_id r s refl l h)
    ]
step-IsWellFormed (update k payload now) s l h = update-IsWellFormed k payload now s h
step-IsWellFormed (delete k) s l h = elim (Bool-cases (is_some (find k s.records))) [
  | inl e ↦ rw e (erase-IsWellFormed k s h)
  | inr e ↦ rw e h
]
step-IsWellFormed clear_all s l h = unfold clear in record { ordered = tt; entries = tt }

abbrev pub AllLegal : List Op → Type 0
AllLegal [] = Unit
AllLegal (op ∷ ops) = Legal op × AllLegal ops

-- After any operations on a well-formed store, whose inserted records are legal, the ids ascend, every
-- record stands under its own id, and no record exceeds the size limit.
pub run-IsWellFormed :
    (ops : List Op) (s : DataStore) → AllLegal ops → IsWellFormed s → IsWellFormed (run ops s)
unfolding run
run-IsWellFormed [] s l h = h
run-IsWellFormed (op ∷ ops) s l h =
    run-IsWellFormed ops (step op s).1 l.1 (step-IsWellFormed op s l.0 h)

-- The sum of the sizes with no wrap-around.
unfoldable pub sum_sizes : OrderedMap Record → ℕ
sum_sizes [] = 0
sum_sizes ((_, r) ∷ m) = length r.payload + sum_sizes m

sum_sizes-le :
    (lo : ℕ) (m : OrderedMap Record)
    → AscendsFrom lo m
    → Entries m
    → lo ≤ u32_mod
    → sum_sizes m + lo * max_record_size ≤ u32_mod * max_record_size
unfolding sum_sizes
sum_sizes-le lo [] a h b = omega arith
sum_sizes-le lo ((k, r) ∷ m) a h b = omega (arith, sum_sizes-le (suc k) m a.1 h.2 (omega arith))

add_sizes-eq-sum_sizes :
    (total : ℕ) (m : OrderedMap Record)
    → total + sum_sizes m < u64_mod
    → add_sizes total m ≡ total + sum_sizes m
unfolding add_sizes sum_sizes get_size
add_sizes-eq-sum_sizes total [] h = omega arith
add_sizes-eq-sum_sizes total ((k, r) ∷ m) h =
    omega (arith, add_sizes-eq-sum_sizes ((total + length r.payload) % u64_mod) m (omega arith))

-- In a valid store `getTotalSize` is the exact sum of the sizes: its size_t never wraps.
pub get_total_size_exact : (s : DataStore) → IsWellFormed s → get_total_size s ≡ sum_sizes s.records
unfolding get_total_size
get_total_size_exact s h = omega (
  arith,
  add_sizes-eq-sum_sizes 0 s.records
      (omega (arith, sum_sizes-le 0 s.records h.ordered h.entries (omega arith))),
)

-- ===== src/Storage/DataStore/Refinement.antt =====
-- DataStore against its abstract view: a partial function from record ids to records.
use mathlib.Core.Path.{fun_ext}
use transaction_manager.Shared.{
  ℕ, Bool, true, false, ◌≡◌, refl, ap, ◌∙◌, List, [], ◌∷◌, Option, none, some, Bytes, ◌==◌,
  if◌then◌else◌, Result, ok, raise, invalid_argument, length, ltb, Bool-cases, inl, inr, arith,
}
use transaction_manager.Shared.OrderedMap.{find, find-insert, find-erase}
use transaction_manager.Storage.Record.{Record, set_data}
use transaction_manager.Storage.DataStore.{
  DataStore, Op, insert, update, delete, clear_all, insert_record, get_record, update_record,
  delete_record, clear, write_back, step, run,
}

abbrev pub View : Type 0
View = ℕ → Option Record

abbrev pub view : DataStore → View
view s k = get_record k s

-- The view with the entry at `k` replaced.
abbrev pub at : ℕ → Option Record → View → View
at k r v j = if k == j then r else v j

-- The contract of include/storage/DataStore.h, in terms of the view alone.
abbrev spec_insert : Record → Option Record → View → Result Bool × View
spec_insert r none v = (ok true, at r.record_id (some r) v)
spec_insert r (some _) v = (ok false, v)

-- The largest size of a record, in bytes.
abbrev size_limit : ℕ
size_limit = 1048576

abbrev spec_update : ℕ → Bytes → ℕ → Option Record → View → Result Bool × View
spec_update k payload now none v = (ok false, v)
spec_update k payload now (some r) v =
    let written : Record = record r { payload = payload; modified_time = now } in
    if ltb size_limit (length payload)
    then (raise invalid_argument, v)
    else (ok true, at k (some written) v)

abbrev spec_delete : ℕ → Option Record → View → Result Bool × View
spec_delete k none v = (ok false, v)
spec_delete k (some _) v = (ok true, at k none v)

unfoldable pub spec_step : Op → View → Result Bool × View
spec_step (insert none) v = (ok false, v)
spec_step (insert (some r)) v = spec_insert r (v r.record_id) v
spec_step (update k payload now) v = spec_update k payload now (v k) v
spec_step (delete k) v = spec_delete k (v k) v
spec_step clear_all v = (ok true, λ _. none)

unfoldable pub spec_run : List Op → View → View
spec_run [] v = v
spec_run (op ∷ ops) v = spec_run ops (spec_step op v).1

insert-refines :
    (r : Record) (s : DataStore) (o : Option Record)
    → find r.record_id s.records ≡ o
    → ((step (insert (some r)) s).0 ≡ (spec_insert r o (view s)).0)
      × ((j : ℕ) → view (step (insert (some r)) s).1 j ≡ (spec_insert r o (view s)).1 j)
unfolding step insert_record get_record
insert-refines r s none e =
    (ground arith, λ j. ground (arith, find-insert j r.record_id r s.records))
insert-refines r s (some _) e = (ground arith, λ j. ground arith)

written-refines :
    (k : ℕ) (payload : Bytes) (now : ℕ) (r : Record) (s : DataStore)
    → ((write_back k (set_data payload now r) s).0
        ≡ (spec_update k payload now (some r) (view s)).0)
      × ((j : ℕ)
          → view (write_back k (set_data payload now r) s).1 j
            ≡ (spec_update k payload now (some r) (view s)).1 j)
unfolding write_back set_data get_record
written-refines k payload now r s = elim (Bool-cases (ltb size_limit (length payload))) [
  | inl e ↦ rw e (refl, λ j. refl)
  | inr e ↦
      let written : Record = record r { payload = payload; modified_time = now } in
      rw e (refl, λ j. find-insert j k written s.records)
]

update-refines :
    (k : ℕ) (payload : Bytes) (now : ℕ) (s : DataStore) (o : Option Record)
    → find k s.records ≡ o
    → ((update_record k payload now s).0 ≡ (spec_update k payload now o (view s)).0)
      × ((j : ℕ)
          → view (update_record k payload now s).1 j ≡ (spec_update k payload now o (view s)).1 j)
unfolding update_record
update-refines k payload now s none e = (rw (e, update_record), λ j. rw (e, update_record))
update-refines k payload now s (some r) e =
    rw (e, update_record) (written-refines k payload now r s)

delete-refines :
    (k : ℕ) (s : DataStore) (o : Option Record)
    → find k s.records ≡ o
    → ((step (delete k) s).0 ≡ (spec_delete k o (view s)).0)
      × ((j : ℕ) → view (step (delete k) s).1 j ≡ (spec_delete k o (view s)).1 j)
unfolding step delete_record get_record
delete-refines k s none e = (ground arith, λ j. ground arith)
delete-refines k s (some _) e = (ground arith, λ j. ground (arith, find-erase j k s.records))

abbrev Refines : Op → DataStore → Type 0
Refines op s =
    ((step op s).0 ≡ (spec_step op (view s)).0)
    × ((j : ℕ) → view (step op s).1 j ≡ (spec_step op (view s)).1 j)

Refines-pointwise : (op : Op) (s : DataStore) → Refines op s
unfolding step spec_step get_record
Refines-pointwise (insert none) s = unfold insert_record in (refl, λ j. refl)
Refines-pointwise (insert (some r)) s = insert-refines r s _ refl
Refines-pointwise (update k payload now) s = update-refines k payload now s _ refl
Refines-pointwise (delete k) s = delete-refines k s _ refl
Refines-pointwise clear_all s = unfold clear find in (refl, λ j. refl)

-- Each operation has the reply, or the exception, that the contract gives for the view of the
-- store, and leaves the view that the contract gives.
pub step-refines :
    (op : Op) (s : DataStore)
    → ((step op s).0 ≡ (spec_step op (view s)).0) × (view (step op s).1 ≡ (spec_step op (view s)).1)
step-refines op s = let (reply, views) = Refines-pointwise op s in (reply, fun_ext views)

-- After any operations, failed ones included, the store shows the view that the contract gives.
pub run-refines : (ops : List Op) (s : DataStore) → view (run ops s) ≡ spec_run ops (view s)
unfolding run spec_run
run-refines [] s = refl
run-refines (op ∷ ops) s = run-refines ops (step op s).1 ∙ ap (spec_run ops) (step-refines op s).1

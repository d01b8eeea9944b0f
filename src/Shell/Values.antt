-- ===== src/Shell/Values.antt =====
-- The values that the store holds: numbers of 32 bits in decimal, which `bytesToInt` can read.
use transaction_manager.Shared.{
  ℕ, zero, suc, ◌+◌, ◌/◌, ◌%◌, ◌^◌, ◌≤◌, ◌<◌, Bool, true, false, some, [], ◌∷◌, length,
  length-append, Bytes, ltb, ok, ◌≡◌, refl, sym, subst, ◌∙◌, ◌==◌, is_some, inl, inr, Bool-cases,
  Option-cases, arith,
}
use transaction_manager.Shared.OrderedMap
use transaction_manager.Shared.OrderedMap.{find, find-insert}
use transaction_manager.Shared.Text.{ℤ, pos, negsuc, print_digits, print_nat, print_int, stoll}
use transaction_manager.Shared.Decimal.{print_int-ne-nil, FitsInt64, stoll-print_int}
use transaction_manager.Constants.{max_record_size}
use transaction_manager.Storage.Record.{Record, set_data}
use transaction_manager.Storage.DataStore.{
  DataStore, insert_record, get_record, update_record, write_back,
}
use transaction_manager.Shell.Commands.{narrow, bytes_to_int, current_value}
use transaction_manager.Shell.State.{Shell}

-- int
abbrev pub FitsInt32 : ℤ → Type 0
FitsInt32 (pos n) = n < 2 ^ 31
FitsInt32 (negsuc n) = n < 2 ^ 31

FitsInt32-FitsInt64 : (v : ℤ) → FitsInt32 v → FitsInt64 v
FitsInt32-FitsInt64 (pos n) h = omega (arith, h)
FitsInt32-FitsInt64 (negsuc n) h = omega (arith, h)

narrow_fits : (v : ℤ) → FitsInt32 v → narrow v ≡ ok v
narrow_fits (pos n) h = ground arith
narrow_fits (negsuc n) h = ground arith

length-print_digits : (fuel n k : ℕ) → n < 10 ^ suc k → length (print_digits fuel n) ≤ suc k
unfolding print_digits
length-print_digits zero n k h = omega arith
length-print_digits (suc fuel) n zero h =
    let small : ltb n 10 ≡ true = ground (arith, h) in rw (small, print_digits) (omega arith)
length-print_digits (suc fuel) n (suc k) h = elim (Bool-cases (ltb n 10)) [
  | inl e ↦ rw (e, print_digits) (omega arith)
  | inr e ↦
      rw (e, print_digits)
        (omega (
          arith,
          length-append (print_digits fuel (n / 10)) ((48 + n % 10) ∷ []),
          length-print_digits fuel (n / 10) k (omega (arith, h)),
        ))
]

-- A value of 32 bits is short enough for a record.
print_nat_size : (n : ℕ) → n ≤ 2 ^ 31 → length (print_nat n) ≤ 10
unfolding print_nat
print_nat_size n h = length-print_digits (suc n) n 9 (omega (arith, h))

pub print_int_size : (v : ℤ) → FitsInt32 v → length (print_int v) ≤ max_record_size
unfolding print_int
print_int_size (pos n) h = omega (arith, h, print_nat_size n)
print_int_size (negsuc n) h = omega (arith, h, print_nat_size (suc n))

-- The record holds the decimal text of a value of 32 bits.
abbrev pub HasValue : Record → Type 0
HasValue r = (v : ℤ) × FitsInt32 v × (r.payload ≡ print_int v)

-- Every record of the store does.
abbrev pub IsReadable : DataStore → Type 0
IsReadable s = (k : ℕ) (r : Record) → get_record k s ≡ some r → HasValue r

pub bytes_to_int-print_int : (v : ℤ) → FitsInt32 v → bytes_to_int (print_int v) ≡ ok v
bytes_to_int-print_int v h = nonempty (print_int v) refl
  where
    nonempty : (s : Bytes) → print_int v ≡ s → bytes_to_int (print_int v) ≡ ok v
    nonempty [] e = absurd (print_int-ne-nil v e)
    nonempty (c ∷ s) e =
        let number : stoll (c ∷ s) ≡ ok v = rw e at (stoll-print_int v (FitsInt32-FitsInt64 v h)) in
        rw e (unfold bytes_to_int in rw number (narrow_fits v h))

-- What was printed into a record is what `SHOW` and `READ` read from it.
pub current_value_lem :
    (id : ℕ) (r : Record) (v : ℤ) (sh : Shell)
    → get_record id sh.data_store ≡ some r
    → r.payload ≡ print_int v
    → FitsInt32 v
    → current_value id sh ≡ ok v
unfolding current_value
current_value_lem id r v sh e p h = rw (e, current_value) (rw p (bytes_to_int-print_int v h))

pub current_value_exists :
    (id : ℕ) (sh : Shell) → IsReadable sh.data_store → (v : ℤ) × (current_value id sh ≡ ok v)
unfolding current_value
current_value_exists id sh readable = elim (Option-cases (get_record id sh.data_store)) [
  | inl e ↦ (pos 0, rw (e, current_value))
  | inr (r, e) ↦ let (v, h, p) = readable id r e in (v, current_value_lem id r v sh e p h)
]

some_injective : {A : Type 0} (a b : A) → some a ≡ some b → a ≡ b
some_injective a b e = ground arith

pub insert_record-IsReadable :
    (r : Record) (s : DataStore)
    → HasValue r
    → IsReadable s
    → IsReadable (insert_record (some r) s).1
unfolding insert_record get_record
insert_record-IsReadable r s value readable =
    elim (Bool-cases (is_some (find r.record_id s.records))) [
      | inl e ↦ rw e readable
      | inr e ↦ rw e (λ k x h. elim (Bool-cases (r.record_id == k)) [
        | inl same ↦ subst HasValue (some_injective r x (sym (inserted k same) ∙ h)) value
        | inr other ↦ readable k x (sym (kept k other) ∙ h)
      ])
    ]
  where
    inserted :
        (k : ℕ)
        → (r.record_id == k) ≡ true
        → find k (OrderedMap.insert r.record_id r s.records) ≡ some r
    inserted k same = rw (find-insert k r.record_id r s.records, same)

    kept :
        (k : ℕ)
        → (r.record_id == k) ≡ false
        → find k (OrderedMap.insert r.record_id r s.records) ≡ find k s.records
    kept k other = rw (find-insert k r.record_id r s.records, other)

-- An update with a value of 32 bits throws nothing, keeps the store readable, and is read back.
pub update_record-IsReadable :
    (id : ℕ) (v : ℤ) (now : ℕ) (s : DataStore)
    → FitsInt32 v
    → IsReadable s
    → (b : Bool) × ((update_record id (print_int v) now s).0 ≡ ok b)
      × IsReadable (update_record id (print_int v) now s).1
unfolding update_record write_back get_record
update_record-IsReadable id v now s h readable = elim (Option-cases (find id s.records)) [
  | inl e ↦ rw (e, update_record) (false, refl, readable)
  | inr (r, e) ↦
      let r' : Record = record r { payload = print_int v; modified_time = now } in
      let written : set_data (print_int v) now r ≡ ok r' =
        unfold set_data in ground (arith, print_int_size v h) in
      rw (e, update_record)
        (rw written (
          true,
          refl,
          λ k x g. elim (Bool-cases (id == k)) [
            | inl same ↦
                subst HasValue
                  (some_injective r' x (sym (rw (find-insert k id r' s.records, same)) ∙ g))
                  (v, h, refl)
            | inr other ↦ readable k x (sym (rw (find-insert k id r' s.records, other)) ∙ g)
          ],
        ))
]

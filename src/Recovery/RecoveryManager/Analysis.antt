-- ===== src/Recovery/RecoveryManager/Analysis.antt =====
-- What the analysis of a log finds, against a description of the log alone.
use transaction_manager.Shared.{
  ℕ, Bool, true, false, ◌&&◌, ◌||◌, Option, none, some, List, [], ◌∷◌, ◌++◌, map, All, ◌==◌,
  if◌then◌else◌, ◌≡◌, refl, ap, ◌∙◌, arith, ==_refl,
}
use transaction_manager.Shared.OrderedSet
use transaction_manager.Shared.OrderedSet.{
  OrderedSet, contains, contains-insert, contains-erase, AscendsFrom, insert-AscendsFrom,
  erase-AscendsFrom,
}
use transaction_manager.Shared.Text.{ℤ}
use transaction_manager.Recovery.LogRecord.{LogType, LogRecord, begin, commit, abort}
use transaction_manager.Recovery.RecoveryManager.{
  analyze_record, analyze_each, redo_each, is_data_modification_type, abort_record,
}

abbrev pub is_commit : LogType → Bool
is_commit commit = true
is_commit _ = false

-- The log holds a COMMIT of the transaction.
unfoldable pub commits : ℕ → List LogRecord → Bool
commits txn [] = false
commits txn (r ∷ rs) = (r.transaction_id == txn && is_commit r.log_type) || commits txn rs

-- What a record of the transaction itself says of it, if anything.
abbrev pub status : LogType → Option Bool
status begin = some true
status commit = some false
status abort = some false
status _ = none

abbrev pub after_record : Option Bool → Bool → Bool
after_record none before = before
after_record (some b) before = b

-- The last BEGIN, COMMIT or ABORT of the transaction in the log is a BEGIN; `before` stands for
-- what came before the log.
unfoldable pub left_open : ℕ → Bool → List LogRecord → Bool
left_open txn before [] = before
left_open txn before (r ∷ rs) =
    left_open txn
      (if r.transaction_id == txn then after_record (status r.log_type) before else before) rs

record_lem :
    (txn k : ℕ) (t : LogType) (sets : OrderedSet × OrderedSet)
    → let (done, active) = analyze_record t k sets in
      (contains txn done ≡ ((k == txn && is_commit t) || contains txn sets.0))
      × (contains txn active ≡ (
          if k == txn then after_record (status t) (contains txn sets.1) else contains txn sets.1))
unfolding analyze_record
record_lem txn k begin sets = ground (arith, contains-insert txn k sets.1)
record_lem txn k commit sets =
    ground (arith, contains-insert txn k sets.0, contains-erase txn k sets.1)
record_lem txn k abort sets = ground (arith, contains-erase txn k sets.1)
record_lem txn k _ sets = ground arith

analyze_each_lem :
    (txn : ℕ) (rs : List LogRecord) (sets : OrderedSet × OrderedSet)
    → (contains txn (analyze_each rs sets).0 ≡ (contains txn sets.0 || commits txn rs))
      × (contains txn (analyze_each rs sets).1 ≡ left_open txn (contains txn sets.1) rs)
unfolding analyze_each commits left_open
analyze_each_lem txn [] sets = (ground arith, refl)
analyze_each_lem txn (r ∷ rs) sets =
    let (done, active) = record_lem txn r.transaction_id r.log_type sets in
    let (later, open_later) =
      analyze_each_lem txn rs (analyze_record r.log_type r.transaction_id sets) in
    (ground (arith, done, later), open_later ∙ ap (λ (b : Bool). left_open txn b rs) active)

-- Analysis reports a transaction as committed exactly if the log holds a COMMIT of it, and as
-- incomplete exactly if the last BEGIN, COMMIT or ABORT of it is a BEGIN.
pub analysis_exact :
    (txn : ℕ) (rs : List LogRecord)
    → (contains txn (analyze_each rs ([], [])).0 ≡ commits txn rs)
      × (contains txn (analyze_each rs ([], [])).1 ≡ left_open txn false rs)
analysis_exact txn rs =
    let (done, active) = analyze_each_lem txn rs ([], []) in unfold contains in (done, active)

pub left_open-append :
    (txn : ℕ) (before : Bool) (xs ys : List LogRecord)
    → left_open txn before (xs ++ ys) ≡ left_open txn (left_open txn before xs) ys
unfolding left_open
left_open-append txn before [] ys = refl
left_open-append txn before (x ∷ xs) ys =
    left_open-append txn
      (if x.transaction_id == txn then after_record (status x.log_type) before else before) xs ys

pub commits-append :
    (txn : ℕ) (xs ys : List LogRecord) → commits txn (xs ++ ys) ≡ (commits txn xs || commits txn ys)
unfolding commits
commits-append txn [] ys = refl
commits-append txn (x ∷ xs) ys = ground (arith, commits-append txn xs ys)

left_open-aborts :
    (clock : ℕ → ℤ) (txn : ℕ) (before : Bool) (txns : List ℕ)
    → left_open txn before (map (abort_record clock) txns)
      ≡ (if contains txn txns then false else before)
unfolding left_open contains abort_record
left_open-aborts clock txn before [] = refl
left_open-aborts clock txn before (k ∷ txns) =
    left_open-aborts clock txn (if k == txn then false else before) txns ∙ ground arith

pub commits-aborts :
    (clock : ℕ → ℤ) (txn : ℕ) (txns : List ℕ) → commits txn (map (abort_record clock) txns) ≡ false
unfolding commits abort_record
commits-aborts clock txn [] = refl
commits-aborts clock txn (k ∷ txns) = ground (arith, commits-aborts clock txn txns)

-- The log with an ABORT of every incomplete transaction behind it.
abbrev pub with_aborts : (ℕ → ℤ) → List LogRecord → List LogRecord
with_aborts clock rs = rs ++ map (abort_record clock) (analyze_each rs ([], [])).1

pub closed_by_aborts :
    (clock : ℕ → ℤ) (txn : ℕ) (rs : List LogRecord)
    → left_open txn false (with_aborts clock rs) ≡ false
closed_by_aborts clock txn rs =
    let active = (analyze_each rs ([], [])).1 in
    left_open-append txn false rs (map (abort_record clock) active)
    ∙ left_open-aborts clock txn (left_open txn false rs) active
    ∙ ground (arith, (analysis_exact txn rs).1)

nothing_contained : (s : OrderedSet) → ((a : ℕ) → contains a s ≡ false) → s ≡ []
unfolding contains
nothing_contained [] h = refl
nothing_contained (x ∷ s) h = absurd (ground (arith, h x, ==_refl x))

-- Once the ABORT records are in the log, an analysis finds no incomplete transaction, and the same
-- committed ones.
pub analysis-with_aborts :
    (clock : ℕ → ℤ) (rs : List LogRecord)
    → ((analyze_each (with_aborts clock rs) ([], [])).1 ≡ [])
      × ((txn : ℕ)
          → contains txn (analyze_each (with_aborts clock rs) ([], [])).0
            ≡ contains txn (analyze_each rs ([], [])).0)
analysis-with_aborts clock rs = (
  nothing_contained (analyze_each (with_aborts clock rs) ([], [])).1
      (λ txn. (analysis_exact txn (with_aborts clock rs)).1 ∙ closed_by_aborts clock txn rs),
  λ txn.
      let active = (analyze_each rs ([], [])).1 in
      (analysis_exact txn (with_aborts clock rs)).0
      ∙ commits-append txn rs (map (abort_record clock) active)
      ∙ ground (arith, commits-aborts clock txn active, (analysis_exact txn rs).0),
)

-- The redo list depends on the committed transactions alone, and ABORT records add nothing to it.
pub redo_each-with_aborts :
    (clock : ℕ → ℤ) (done done' : OrderedSet) (rs : List LogRecord) (txns : List ℕ)
    → ((txn : ℕ) → contains txn done' ≡ contains txn done)
    → redo_each done' (rs ++ map (abort_record clock) txns) ≡ redo_each done rs
unfolding redo_each is_data_modification_type abort_record
redo_each-with_aborts clock done done' (r ∷ rs) txns same =
    rw (same r.transaction_id, redo_each-with_aborts clock done done' rs txns same)
redo_each-with_aborts clock done done' [] [] same = refl
redo_each-with_aborts clock done done' [] (k ∷ txns) same =
    ground (arith, redo_each-with_aborts clock done done' [] txns same)

-- A data record of a transaction that has a COMMIT in the log.
abbrev pub kept : List LogRecord → LogRecord → Bool
kept log r = commits r.transaction_id log && is_data_modification_type r.log_type

unfoldable pub select : (LogRecord → Bool) → List LogRecord → List LogRecord
select p [] = []
select p (r ∷ rs) = let rest = select p rs in if p r then r ∷ rest else rest

redo_each-select :
    (done : OrderedSet) (log rs : List LogRecord)
    → ((txn : ℕ) → contains txn done ≡ commits txn log)
    → redo_each done rs ≡ select (kept log) rs
unfolding redo_each select
redo_each-select done log [] same = refl
redo_each-select done log (r ∷ rs) same =
    rw (same r.transaction_id, redo_each-select done log rs same) (ground arith)

-- The redo list holds exactly the data records of the committed transactions, in log order: the log
-- without its other records.
pub redo_exact :
    (rs : List LogRecord) → redo_each (analyze_each rs ([], [])).0 rs ≡ select (kept rs) rs
redo_exact rs = redo_each-select _ rs rs (λ txn. (analysis_exact txn rs).0)

-- Whatever holds of the id of every record holds of every transaction that analysis reports.
insert-All :
    (P : ℕ → Type 0) (a : ℕ) (s : OrderedSet) → P a → All P s → All P (OrderedSet.insert a s)
unfolding OrderedSet.insert
insert-All P a [] p h = (p, tt)
insert-All P a (x ∷ s) p h = ground (arith, insert-All P a s p h.1)

erase-All : (P : ℕ → Type 0) (a : ℕ) (s : OrderedSet) → All P s → All P (OrderedSet.erase a s)
unfolding OrderedSet.erase
erase-All P a [] h = tt
erase-All P a (x ∷ s) h = ground (arith, erase-All P a s h.1)

analyze_record-All :
    (P : ℕ → Type 0) (t : LogType) (k : ℕ) (sets : OrderedSet × OrderedSet)
    → P k
    → All P sets.1
    → All P (analyze_record t k sets).1
unfolding analyze_record
analyze_record-All P begin k sets p h = insert-All P k sets.1 p h
analyze_record-All P commit k sets p h = erase-All P k sets.1 h
analyze_record-All P abort k sets p h = erase-All P k sets.1 h
analyze_record-All P _ k sets p h = h

pub analyze_each-All :
    (P : ℕ → Type 0) (rs : List LogRecord) (sets : OrderedSet × OrderedSet)
    → All (λ r. P r.transaction_id) rs
    → All P sets.1
    → All P (analyze_each rs sets).1
unfolding analyze_each
analyze_each-All P [] sets h a = a
analyze_each-All P (r ∷ rs) sets h a =
    analyze_each-All P rs _ h.1 (analyze_record-All P r.log_type r.transaction_id sets h.0 a)

-- The set of the incomplete transactions stays in strictly ascending order.
analyze_record-AscendsFrom :
    (t : LogType) (k : ℕ) (sets : OrderedSet × OrderedSet)
    → AscendsFrom 0 sets.1
    → AscendsFrom 0 (analyze_record t k sets).1
unfolding analyze_record
analyze_record-AscendsFrom begin k sets o = insert-AscendsFrom k 0 sets.1 (omega arith) o
analyze_record-AscendsFrom commit k sets o = erase-AscendsFrom k 0 sets.1 o
analyze_record-AscendsFrom abort k sets o = erase-AscendsFrom k 0 sets.1 o
analyze_record-AscendsFrom _ k sets o = o

pub analyze_each-AscendsFrom :
    (rs : List LogRecord) (sets : OrderedSet × OrderedSet)
    → AscendsFrom 0 sets.1
    → AscendsFrom 0 (analyze_each rs sets).1
unfolding analyze_each
analyze_each-AscendsFrom [] sets o = o
analyze_each-AscendsFrom (r ∷ rs) sets o =
    analyze_each-AscendsFrom rs _ (analyze_record-AscendsFrom r.log_type r.transaction_id sets o)

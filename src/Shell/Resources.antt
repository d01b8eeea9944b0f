-- ===== src/Shell/Resources.antt =====
-- Resource ids: what `ensureResource` returns, and what it makes.
use transaction_manager.Shared.{
  ℕ, suc, ◌+◌, ◌≤◌, ◌<◌, true, false, Option, some, List, [], ◌∷◌, length, Bytes, ◌==◌,
  if◌then◌else◌, is_some, Result, ok, raise, ◌>>=◌, ◌≡◌, refl, ap, subst, ◌∙◌, ◌⊎◌, inl, inr, All,
  Bool-cases, Option-cases, ==_refl, arith,
}
use transaction_manager.Shared.OrderedMap
use transaction_manager.Shared.OrderedMap.{find, find-insert}
use transaction_manager.Shared.Text.{
  codes, str_eq, pieces, print_digits, print_nat, print_int, ℤ, pos,
}
use transaction_manager.Constants.{u32_mod, max_record_size}
use transaction_manager.Storage.Record.{Record, set_data}
use transaction_manager.Storage.Record
use transaction_manager.Storage.DataStore.{DataStore, insert_record, get_record, record_exists}
use transaction_manager.Shell.State.{
  Shell, Clock, Table, lookup, store, make_record, with_resource, add_resource, initial_value, join,
  ensure_each, ensure_resource,
}

-- The id has been handed out, and the store has a record for it.
pub record IsKnown (id : ℕ) (sh : Shell) : Type 0 where
  pub positive : 1 ≤ id
  pub handed_out : id < sh.next_resource_id
  pub stored : record_exists id sh.data_store ≡ true

-- Every resource id is known, and the ids to come have no record.
pub record IsStocked (sh : Shell) : Type 0 where
  pub ids : All (λ (e : Bytes × ℕ). IsKnown e.1 sh) sh.resource_ids
  pub fresh : (k : ℕ) → sh.next_resource_id ≤ k → record_exists k sh.data_store ≡ false
  pub first : 1 ≤ sh.next_resource_id

-- From one state to a later one: known ids stay known, and their records stay what they are.
pub record IsKept (sh sh' : Shell) : Type 0 where
  pub next : sh.next_resource_id ≤ sh'.next_resource_id
  pub records :
      (k : ℕ)
      → record_exists k sh.data_store ≡ true
      → get_record k sh'.data_store ≡ get_record k sh.data_store

IsKept-refl : (sh : Shell) → IsKept sh sh
IsKept-refl sh = record { next = omega arith; records = λ k h. refl }

exists-get :
    (k : ℕ) (s s' : DataStore)
    → get_record k s' ≡ get_record k s
    → record_exists k s' ≡ record_exists k s
unfolding get_record record_exists
exists-get k s s' e = ap (λ (o : Option Record). is_some o) e

IsKept-trans : (a b c : Shell) → IsKept a b → IsKept b c → IsKept a c
IsKept-trans a b c h k = record {
  next = omega (arith, h.next, k.next);
  records = λ id e.
      k.records id (exists-get id a.data_store b.data_store (h.records id e) ∙ e) ∙ h.records id e;
}

IsKnown-IsKept : (id : ℕ) (a b : Shell) → IsKept a b → IsKnown id a → IsKnown id b
IsKnown-IsKept id a b h known = record {
  positive = known.positive;
  handed_out = omega (arith, h.next, known.handed_out);
  stored = exists-get id a.data_store b.data_store (h.records id known.stored) ∙ known.stored;
}

pub lookup-All :
    (P : ℕ → Type 0) (key : Bytes) (id : ℕ) (table : Table)
    → All (λ (e : Bytes × ℕ). P e.1) table
    → lookup key table ≡ some id
    → P id
unfolding lookup
lookup-All P key id [] h e = absurd (cc)
lookup-All P key id ((k, x) ∷ table) h e = elim (Bool-cases (str_eq k key)) [
  | inl same ↦ subst P (ground arith) h.0
  | inr other ↦ lookup-All P key id table h.1 (ground arith)
]

pub store-All :
    (P Q : ℕ → Type 0) (key : Bytes) (id : ℕ) (table : Table)
    → ((k : ℕ) → P k → Q k)
    → Q id
    → All (λ (e : Bytes × ℕ). P e.1) table
    → All (λ (e : Bytes × ℕ). Q e.1) (store key id table)
unfolding store
store-All P Q key id [] up q h = (q, tt)
store-All P Q key id ((k, x) ∷ table) up q h = elim (Bool-cases (str_eq k key)) [
  | inl same ↦ rw same (q, all_up P Q table up h.1)
  | inr other ↦ rw other (up x h.0, store-All P Q key id table up q h.1)
]
  where
    all_up :
        (P Q : ℕ → Type 0) (table : Table)
        → ((k : ℕ) → P k → Q k)
        → All (λ (e : Bytes × ℕ). P e.1) table
        → All (λ (e : Bytes × ℕ). Q e.1) table
    all_up P Q [] up h = tt
    all_up P Q (e ∷ table) up h = (up e.1 h.0, all_up P Q table up h.1)

module _ (path : Bytes) (last_id : ℕ) (r : Record) (sh : Shell) (stocked : IsStocked sh)
    (own_id : r.record_id ≡ sh.next_resource_id) (room : sh.next_resource_id + 1 < u32_mod) where
  store_after :
      (insert_record (some r) sh.data_store).1
      ≡ record { records = OrderedMap.insert r.record_id r sh.data_store.records }
  unfolding insert_record
  store_after =
      let absent : is_some (find r.record_id sh.data_store.records) ≡ false =
        unfold record_exists in rw own_id (stocked.fresh sh.next_resource_id (omega arith)) in
      rw absent

  get_after :
      (k : ℕ)
      → get_record k (with_resource path last_id r sh).data_store
        ≡ (if sh.next_resource_id == k then some r else get_record k sh.data_store)
  unfolding with_resource get_record
  get_after k = rw (store_after, find-insert k r.record_id r sh.data_store.records, own_id)

  exists_after :
      (k : ℕ)
      → record_exists k (with_resource path last_id r sh).data_store
        ≡ (if sh.next_resource_id == k then true else record_exists k sh.data_store)
  unfolding record_exists get_record
  exists_after k =
      ap (λ (o : Option Record). is_some o) (get_after k)
      ∙ elim (Bool-cases (sh.next_resource_id == k)) [ inl e ↦ rw e | inr e ↦ rw e ]

  with_resource-IsKept : IsKept sh (with_resource path last_id r sh)
  with_resource-IsKept = record {
    next = unfold with_resource in omega (arith, room);
    records = λ k h. get_after k ∙ ground (arith, stocked.fresh k, h);
  }

  with_resource-IsKnown : IsKnown sh.next_resource_id (with_resource path last_id r sh)
  with_resource-IsKnown = record {
    positive = stocked.first;
    handed_out = unfold with_resource in omega (arith, room);
    stored = exists_after sh.next_resource_id ∙ ground (arith, ==_refl sh.next_resource_id);
  }

  with_resource-IsStocked : IsStocked (with_resource path last_id r sh)
  with_resource-IsStocked = record {
    ids =
        unfold with_resource in
        store-All (λ k. IsKnown k sh) (λ k. IsKnown k (with_resource path last_id r sh)) path
          sh.next_resource_id sh.resource_ids
          (λ k. IsKnown-IsKept k sh (with_resource path last_id r sh) with_resource-IsKept)
          with_resource-IsKnown stocked.ids;
    fresh =
        λ k h. exists_after k ∙ unfold with_resource in ground (arith, stocked.fresh k, h, room);
    first = unfold with_resource in omega (arith, room);
  }

-- The printed form of the first values is short enough for a record.
initial_size : (path : Bytes) → length (print_int (initial_value path)) ≤ max_record_size
unfolding initial_value print_int print_nat print_digits
initial_size path = elim (Bool-cases (str_eq path (codes "A"))) [
  | inl e ↦ rw e (omega arith)
  | inr e ↦ rw e (omega arith)
]

zero_size : length (print_int (pos 0)) ≤ max_record_size
unfolding print_int print_nat print_digits
zero_size = omega arith

-- The resource with the id that was returned is in the store, and no other resource has changed.
pub record Ensured (id : ℕ) (sh sh' : Shell) : Type 0 where
  pub stocked : IsStocked sh'
  pub known : IsKnown id sh'
  pub kept : IsKept sh sh'

made :
    (clock : Clock) (id : ℕ) (value : ℤ)
    → length (print_int value) ≤ max_record_size
    → (r : Record) × (make_record clock id value ≡ ok r) × (r.record_id ≡ id)
unfolding make_record set_data Record.create
made clock id value h = (
  record {
    record_id = id;
    payload = print_int value;
    created_time = clock.system id;
    modified_time = clock.system id;
  },
  ground arith,
  refl,
)

abbrev EnsuredBy : Shell → Result (ℕ × Shell) → Type 0
EnsuredBy sh (raise e) = ⊥
EnsuredBy sh (ok (id, sh')) = Ensured id sh sh' × (sh'.next_resource_id ≡ sh.next_resource_id + 1)

add_resource-EnsuredBy :
    (clock : Clock) (path : Bytes) (last_id : ℕ) (value : ℤ) (sh : Shell)
    → length (print_int value) ≤ max_record_size
    → IsStocked sh
    → sh.next_resource_id + 1 < u32_mod
    → EnsuredBy sh (add_resource clock path last_id value sh)
unfolding add_resource
add_resource-EnsuredBy clock path last_id value sh short stocked room =
    let (r, e, own_id) = made clock sh.next_resource_id value short in
    rw e (
      record {
        stocked = with_resource-IsStocked path last_id r sh stocked own_id room;
        known = with_resource-IsKnown path last_id r sh stocked own_id room;
        kept = with_resource-IsKept path last_id r sh stocked own_id room;
      },
      unfold with_resource in omega (arith, room),
    )

-- What a part of the loop over the segments has done that makes at most `n` resources.
abbrev WalkOutcome : ℕ → Shell → Result (ℕ × Shell) → Type 0
WalkOutcome n sh (raise e) = ⊥
WalkOutcome n sh (ok (id, sh')) =
    IsStocked sh'
    × IsKept sh sh'
    × ((id ≡ 0) ⊎ IsKnown id sh')
    × (sh'.next_resource_id ≤ sh.next_resource_id + n)

later :
    (n m : ℕ) (sh mid : Shell) (x : Result (ℕ × Shell))
    → IsKept sh mid
    → mid.next_resource_id + n ≤ sh.next_resource_id + m
    → WalkOutcome n mid x
    → WalkOutcome m sh x
later n m sh mid (raise e) k h o = o
later n m sh mid (ok (id, sh')) k h (stocked, kept, known, bound) =
    (stocked, IsKept-trans sh mid sh' k kept, known, omega (arith, h, bound))

after_add :
    (n : ℕ) (sh : Shell) (x : Result (ℕ × Shell)) (f : ℕ × Shell → Result (ℕ × Shell))
    → EnsuredBy sh x
    → ((id : ℕ) (mid : Shell)
        → Ensured id sh mid
        → mid.next_resource_id ≡ sh.next_resource_id + 1
        → WalkOutcome n mid (f (id, mid)))
    → WalkOutcome (suc n) sh (x >>= f)
after_add n sh (raise e) f o rest = absurd o
after_add n sh (ok (id, mid)) f (o, next) rest =
    later n (suc n) sh mid (f (id, mid)) o.kept (omega (arith, next)) (rest id mid o next)

ensure_each-WalkOutcome :
    (clock : Clock) (segments : List Bytes) (path : Bytes) (last_id : ℕ) (sh : Shell)
    → IsStocked sh
    → (last_id ≡ 0) ⊎ IsKnown last_id sh
    → sh.next_resource_id + length segments < u32_mod
    → WalkOutcome (length segments) sh (ensure_each clock segments path last_id sh)
unfolding ensure_each
ensure_each-WalkOutcome clock [] path last_id sh stocked known room =
    (stocked, IsKept-refl sh, known, omega arith)
ensure_each-WalkOutcome clock ([] ∷ rest) path last_id sh stocked known room =
    later (length rest) (suc (length rest)) sh sh (ensure_each clock rest path last_id sh)
      (IsKept-refl sh) (omega arith)
      (ensure_each-WalkOutcome clock rest path last_id sh stocked known (omega (arith, room)))
ensure_each-WalkOutcome clock ((c ∷ s) ∷ rest) path last_id sh stocked known room =
    let longer = join path (c ∷ s) in
    elim (Option-cases (lookup longer sh.resource_ids)) [
      | inr (id, e) ↦
          rw (e, ensure_each)
            (later (length rest) (suc (length rest)) sh sh (ensure_each clock rest longer id sh)
              (IsKept-refl sh) (omega arith)
              (ensure_each-WalkOutcome clock rest longer id sh stocked
                (inr (lookup-All (λ k. IsKnown k sh) longer id sh.resource_ids stocked.ids e))
                (omega (arith, room))))
      | inl e ↦
          rw (e, ensure_each)
            (after_add (length rest) sh
              (add_resource clock longer last_id (initial_value longer) sh)
              (λ (id, mid). ensure_each clock rest longer id mid)
              (add_resource-EnsuredBy clock longer last_id (initial_value longer) sh
                (initial_size longer) stocked (omega (arith, room)))
              (λ id mid o next.
                ensure_each-WalkOutcome clock rest longer id mid o.stocked (inr o.known)
                  (omega (arith, room, next))))
    ]

-- What a whole call does: it returns a known resource.
abbrev pub Ensures : Shell → Result (ℕ × Shell) → Type 0
Ensures sh (raise e) = ⊥
Ensures sh (ok (id, sh')) = Ensured id sh sh'

ensure_last :
    (clock : Clock) (name : Bytes) (n : ℕ) (sh : Shell) (x : Result (ℕ × Shell))
    → sh.next_resource_id + n + 1 < u32_mod
    → WalkOutcome n sh x
    → Ensures sh
        (x >>= λ (id, sh'). if id == 0 then add_resource clock name 0 (pos 0) sh' else ok (id, sh'))
ensure_last clock name n sh (raise e) room o = o
ensure_last clock name n sh (ok (id, mid)) room (stocked, kept, known, bound) =
    elim (Bool-cases (id == 0)) [
      | inl zero_id ↦ rw zero_id (
          fallback (add_resource clock name 0 (pos 0) mid) (
            add_resource-EnsuredBy clock name 0 (pos 0) mid zero_size stocked
              (omega (arith, room, bound))))
      | inr other ↦ rw other (elim known [
        | inl is_zero ↦ absurd (ground (arith, is_zero, other))
        | inr k ↦ record { stocked = stocked; known = k; kept = kept }
      ])
    ]
  where
    fallback : (y : Result (ℕ × Shell)) → EnsuredBy mid y → Ensures sh y
    fallback (raise e) o = o
    fallback (ok (id', last)) (o, next) = record {
      stocked = o.stocked;
      known = o.known;
      kept = IsKept-trans sh mid last kept o.kept;
    }

-- As long as there are ids left for all the segments of a name and one more, `ensureResource`
-- throws nothing and returns the id of a resource that has a record; every id in the table has a
-- record afterwards too, and no record that was there has changed.
pub ensure_resource-Ensures :
    (clock : Clock) (name : Bytes) (sh : Shell)
    → IsStocked sh
    → sh.next_resource_id + length (pieces b'.' [] name) + 1 < u32_mod
    → Ensures sh (ensure_resource clock name sh)
unfolding ensure_resource
ensure_resource-Ensures clock name sh stocked room =
    ensure_last clock name (length (pieces b'.' [] name)) sh
      (ensure_each clock (pieces b'.' [] name) [] 0 sh) room
      (ensure_each-WalkOutcome clock (pieces b'.' [] name) [] 0 sh stocked (inl refl)
        (omega (arith, room)))

-- ===== src/Shell/Rules.antt =====
-- What holds of the state through a command: rules that reduce it to the elementary changes.
use transaction_manager.Shared.{
  ℕ, List, [], ◌∷◌, Bytes, ◌==◌, Result, ok, raise, ◌>>=◌, ◌≡◌, refl, inl, inr, Bool-cases,
  Option-cases, arith,
}
use transaction_manager.Shared.OrderedMap.{OrderedMap}
use transaction_manager.Shared.OrderedSet.{OrderedSet}
use transaction_manager.Shared.Decimal.{FitsInt64}
use transaction_manager.Shared.Text.{codes, str_eq, pieces, print_int, ℤ, pos}
use transaction_manager.Storage.Record.{Record, set_data}
use transaction_manager.Storage.Record
use transaction_manager.Shell.State.{
  Shell, Clock, Event, lookup, make_record, with_resource, add_resource, initial_value, join,
  ensure_each, ensure_resource,
}
use transaction_manager.Shell.Commands.{say, hold}
use transaction_manager.Shell.Values.{FitsInt32, HasValue, print_int_size}

-- The call returns, and what it returns satisfies `P`.
abbrev pub Returns : {A : Type 0} → (A → Type 0) → Result A → Type 0
Returns P (ok a) = P a
Returns P (raise e) = ⊥

pub bind-Returns :
    {A B : Type 0} (P : A → Type 0) (Q : B → Type 0) (x : Result A) (f : A → Result B)
    → Returns P x
    → ((a : A) → P a → Returns Q (f a))
    → Returns Q (x >>= f)
bind-Returns P Q (ok a) f h k = k a h
bind-Returns P Q (raise e) f h k = absurd h

-- Every reading of the clock is a time_t.
abbrev pub Fits : Clock → Type 0
Fits clock = (txn : ℕ) → FitsInt64 (clock.seconds txn)

-- What output, the table of held resources, and new resources leave true.
pub record KeepsResources (P : Shell → Type 0) : Type 0 where
  pub quiet :
      (output : List Event) (held : OrderedMap OrderedSet) (sh : Shell)
      → P sh
      → P (record sh { output = output; txn_held_resources = held })
  pub resource :
      (path : Bytes) (last_id : ℕ) (r : Record) (sh : Shell)
      → r.record_id ≡ sh.next_resource_id
      → HasValue r
      → P sh
      → P (with_resource path last_id r sh)

made :
    (clock : Clock) (id : ℕ) (v : ℤ)
    → FitsInt32 v
    → (r : Record) × (make_record clock id v ≡ ok r) × (r.record_id ≡ id) × HasValue r
unfolding make_record set_data Record.create
made clock id v h = (
  record {
    record_id = id;
    payload = print_int v;
    created_time = clock.system id;
    modified_time = clock.system id;
  },
  ground (arith, print_int_size v h),
  refl,
  (v, h, refl),
)

initial_fits : (path : Bytes) → FitsInt32 (initial_value path)
unfolding initial_value
initial_fits path = elim (Bool-cases (str_eq path (codes "A"))) [
  | inl e ↦ rw e (omega arith)
  | inr e ↦ rw e (omega arith)
]

-- The state that a call returns beside its result.
abbrev pub Then : {A : Type 0} → (Shell → Type 0) → A × Shell → Type 0
Then P (a, sh) = P sh

module _ (P : Shell → Type 0) (rules : KeepsResources P) where
  pub say_rule : (e : Event) (sh : Shell) → P sh → P (say e sh)
  unfolding say
  say_rule e sh p = rules.quiet _ sh.txn_held_resources sh p

  pub hold_rule : (txn id : ℕ) (sh : Shell) → P sh → P (hold txn id sh)
  unfolding hold
  hold_rule txn id sh p = rules.quiet sh.output _ sh p

  add_resource_rule :
      (clock : Clock) (path : Bytes) (last_id : ℕ) (v : ℤ) (sh : Shell)
      → FitsInt32 v
      → P sh
      → Returns (Then P) (add_resource clock path last_id v sh)
  unfolding add_resource
  add_resource_rule clock path last_id v sh h p =
      let (r, e, own_id, value) = made clock sh.next_resource_id v h in
      rw e (rules.resource path last_id r sh own_id value p)

  ensure_each_rule :
      (clock : Clock) (segments : List Bytes) (path : Bytes) (last_id : ℕ) (sh : Shell)
      → P sh
      → Returns (Then P) (ensure_each clock segments path last_id sh)
  unfolding ensure_each
  ensure_each_rule clock [] path last_id sh p = p
  ensure_each_rule clock ([] ∷ rest) path last_id sh p =
      ensure_each_rule clock rest path last_id sh p
  ensure_each_rule clock ((c ∷ s) ∷ rest) path last_id sh p =
      let longer = join path (c ∷ s) in
      elim (Option-cases (lookup longer sh.resource_ids)) [
        | inr (id, e) ↦ rw (e, ensure_each) (ensure_each_rule clock rest longer id sh p)
        | inl e ↦
            rw (e, ensure_each)
              (bind-Returns (Then P) (Then P)
                (add_resource clock longer last_id (initial_value longer) sh)
                (λ (id, sh'). ensure_each clock rest longer id sh')
                (add_resource_rule clock longer last_id (initial_value longer) sh
                  (initial_fits longer) p)
                (λ (id, sh') p'. ensure_each_rule clock rest longer id sh' p'))
      ]

  pub ensure_resource_rule :
      (clock : Clock) (name : Bytes) (sh : Shell)
      → P sh
      → Returns (Then P) (ensure_resource clock name sh)
  unfolding ensure_resource
  ensure_resource_rule clock name sh p =
      bind-Returns (Then P) (Then P) (ensure_each clock (pieces b'.' [] name) [] 0 sh) _
        (ensure_each_rule clock (pieces b'.' [] name) [] 0 sh p)
        (λ (id, sh') p'. elim (Bool-cases (id == 0)) [
          | inl e ↦ rw e (add_resource_rule clock name 0 (pos 0) sh' (omega arith) p')
          | inr e ↦ rw e p'
        ])

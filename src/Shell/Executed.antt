-- ===== src/Shell/Executed.antt =====
-- What it means that a READ or a WRITE has been executed.
use transaction_manager.Shared.{
  ℕ, ◌==◌, Bool, true, false, some, Result, ok, raise, ◌>>=◌, ◌≡◌, refl, subst, inl, inr,
  Bool-cases, Option-cases, if◌then◌else◌, arith,
}
use transaction_manager.Shared.Text.{codes, str_eq, print_int}
use transaction_manager.Enums.{LockType, shared, exclusive}
use transaction_manager.Concurrency.LockManager.State.{at, compatible_with_others}
use transaction_manager.Concurrency.LockManager.Request.{request_lock, set_resource_parent}
use transaction_manager.Concurrency.LockManager.Answers.{covers}
use transaction_manager.Concurrency.LockManager.Compatibility.{IsSafe}
use transaction_manager.Storage.DataStore.{update_record}
use transaction_manager.Shell.State.{Shell, Command, Clock, with_resource, ensure_resource}
use transaction_manager.Shell.Commands.{
  say, hold, log, current_value, read_granted, write_granted, access, active_txn, execute_command,
}
use transaction_manager.Shell.Rules.{Returns, KeepsResources, Then, ensure_resource_rule}
use transaction_manager.Concurrency.LockManager.Alone.{granted_lock}

bound :
    {A B : Type 0} (x : Result A) (f : A → Result B) (b : B)
    → (x >>= f) ≡ ok b
    → (a : A) × (x ≡ ok a) × (f a ≡ ok b)
bound (ok a) f b e = (a, refl, e)
bound (raise x) f b e = absurd (cc)

IsSafe-resources : KeepsResources (λ sh. IsSafe sh.lock_mgr)
IsSafe-resources = record {
  quiet = λ output held sh s. s;
  resource = λ path last_id r sh _ _ s.
      unfold with_resource in
      elim (Bool-cases (last_id == 0)) [
        | inl e ↦ rw e s
        | inr e ↦ rw e (record { coherent = unfold set_resource_parent in s.coherent })
      ];
}

-- The lock type that a command asks for.
abbrev pub lock_for : Command → LockType
lock_for cmd = if str_eq cmd.op (codes "READ") then shared else exclusive

-- A command that was executed: its transaction, its resource, and the state once the resource was
-- there.
pub record Executed (clock : Clock) (cmd : Command) (sh sh' : Shell) : Type 0 where
  pub txn : ℕ
  pub id : ℕ
  pub ready : Shell
  pub caller : active_txn cmd.txn_label sh ≡ some txn
  pub found : ensure_resource clock cmd.resource_name sh ≡ ok (id, ready)
  pub locked : covers txn (lock_for cmd) (at id sh'.lock_mgr.resource_locks) ≡ true
  pub alone : compatible_with_others txn (lock_for cmd) (at id sh'.lock_mgr.resource_locks) ≡ true
  pub stored : sh'.data_store ≡ (
      if str_eq cmd.op (codes "READ")
      then ready.data_store
      else (update_record id (print_int cmd.value) (clock.system id) ready.data_store).1)

abbrev with_true : Shell → Result (Bool × Shell)
with_true sh = ok (true, sh)

same_state : {a b : Shell} → with_true a ≡ with_true b → a ≡ b
same_state e = cc

module _ (clock : Clock) (cmd : Command) (from_pending : Bool) (sh sh' : Shell) (txn : ℕ) where
  -- An access that was executed: the resource was there, the lock was granted, and the rest was done.
  Granted : LockType → (ℕ → Shell → Result (Bool × Shell)) → Type 0
  Granted t granted =
      (id : ℕ) × (ready : Shell) × (ensure_resource clock cmd.resource_name sh ≡ ok (id, ready))
      × ((request_lock txn id t ready.lock_mgr).0 ≡ true)
      × (granted id (record ready { lock_mgr = (request_lock txn id t ready.lock_mgr).1 })
          ≡ ok (true, sh'))

  access-Granted :
      (t : LockType) (granted : ℕ → Shell → Result (Bool × Shell))
      → access clock cmd from_pending txn t granted sh ≡ ok (true, sh')
      → Granted t granted
  unfolding access Granted
  access-Granted t granted e =
      let ((id, ready), found, rest) =
        bound (ensure_resource clock cmd.resource_name sh) _ (true, sh') e in
      elim (Bool-cases (request_lock txn id t ready.lock_mgr).0) [
        | inl yes_granted ↦ (id, ready, found, yes_granted, ground (arith, rest))
        | inr not_granted ↦ absurd (ground (arith, rest))
      ]

  ready-IsSafe :
      (id : ℕ) (ready : Shell)
      → IsSafe sh.lock_mgr
      → ensure_resource clock cmd.resource_name sh ≡ ok (id, ready)
      → IsSafe ready.lock_mgr
  ready-IsSafe id ready s e =
      subst (Returns (Then (λ n. IsSafe n.lock_mgr))) e (
        ensure_resource_rule (λ n. IsSafe n.lock_mgr) IsSafe-resources clock cmd.resource_name sh s)

  read-Executed :
      active_txn cmd.txn_label sh ≡ some txn
      → str_eq cmd.op (codes "READ") ≡ true
      → IsSafe sh.lock_mgr
      → Granted shared (read_granted cmd txn)
      → Executed clock cmd sh sh'
  unfolding Granted read_granted say hold
  read-Executed active is_read s (id, ready, found, granted, rest) =
      let (covered, only) =
        granted_lock txn id shared ready.lock_mgr (ready-IsSafe id ready s found) granted in
      let asked : Shell = record ready {
        lock_mgr = (request_lock txn id shared ready.lock_mgr).1;
      } in
      let (v, _, last) = bound (current_value id asked) _ (true, sh') rest in
      subst (Executed clock cmd sh) (same_state last) (record {
        txn = txn;
        id = id;
        ready = ready;
        caller = active;
        found = found;
        locked = rw is_read covered;
        alone = rw is_read only;
        stored = rw is_read refl;
      })

  write-Executed :
      active_txn cmd.txn_label sh ≡ some txn
      → str_eq cmd.op (codes "READ") ≡ false
      → IsSafe sh.lock_mgr
      → Granted exclusive (write_granted clock cmd txn)
      → Executed clock cmd sh sh'
  unfolding Granted write_granted say hold log
  write-Executed active not_read s (id, ready, found, granted, rest) =
      let (covered, only) =
        granted_lock txn id exclusive ready.lock_mgr (ready-IsSafe id ready s found) granted in
      let (b, _, last) =
        bound (update_record id (print_int cmd.value) (clock.system id) ready.data_store).0 _
          (true, sh') rest in
      subst (Executed clock cmd sh) (same_state last) (record {
        txn = txn;
        id = id;
        ready = ready;
        caller = active;
        found = found;
        locked = rw not_read covered;
        alone = rw not_read only;
        stored = rw not_read refl;
      })

-- A READ or WRITE that is executed, from a state in which conflicting locks are kept apart, is one of
-- an active transaction, which then has a lock on the resource, SHARED or EXCLUSIVE for a READ and
-- EXCLUSIVE for a WRITE, while no other transaction has a lock that conflicts with it; a READ leaves
-- the store as it was once the resource was there, and a WRITE updates the record of the resource.
pub execute_command-Executed :
    (clock : Clock) (cmd : Command) (from_pending : Bool) (sh sh' : Shell)
    → IsSafe sh.lock_mgr
    → execute_command clock cmd from_pending sh ≡ ok (true, sh')
    → Executed clock cmd sh sh'
unfolding execute_command
execute_command-Executed clock cmd from_pending sh sh' s e =
    elim (Option-cases (active_txn cmd.txn_label sh)) [
      | inl h ↦ absurd (ground (arith, e, h))
      | inr (txn, active) ↦
          let tail = (rw (active, execute_command) at e) in
          elim (Bool-cases (str_eq cmd.op (codes "READ"))) [
            | inl is_read ↦ read-Executed clock cmd from_pending sh sh' txn active is_read s (
                access-Granted clock cmd from_pending sh sh' txn shared (read_granted cmd txn)
                  (rw is_read at tail))
            | inr not_read ↦ elim (Bool-cases (str_eq cmd.op (codes "WRITE"))) [
              | inl is_write ↦ write-Executed clock cmd from_pending sh sh' txn active not_read s (
                  access-Granted clock cmd from_pending sh sh' txn exclusive
                    (write_granted clock cmd txn) (rw (not_read, is_write) at tail))
              | inr not_write ↦ absurd (ground (arith, (rw (not_read, not_write) at tail)))
            ]
          ]
    ]

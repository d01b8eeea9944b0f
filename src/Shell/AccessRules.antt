-- ===== src/Shell/AccessRules.antt =====
-- What holds of the state through READ and WRITE.
pub mod Pending
use transaction_manager.Shared.{
  ℕ, zero, suc, Bool, true, false, Option, none, some, List, [], ◌∷◌, Bytes, ◌||◌, Result, ok,
  raise, ◌>>=◌, ◌≡◌, refl, subst, inl, inr, Bool-cases, Option-cases, All,
}
use transaction_manager.Shared.Text.{codes, str_eq, print_int}
use transaction_manager.Enums.{LockType, shared, exclusive}
use transaction_manager.Storage.DataStore.{update_record}
use transaction_manager.Transaction.TransactionManager.{TransactionManager}
use transaction_manager.Concurrency.LockManager.State.{at, has_lock}
use transaction_manager.Concurrency.LockManager.Answers.{covers}
use transaction_manager.Concurrency.LockManager.Outcome.{granted-covers}
use transaction_manager.Concurrency.LockManager.Request.{request_lock}
use transaction_manager.Recovery.LogRecord.{update}
use transaction_manager.Shell.State.{Shell, Command, Clock, Table, with_resource, ensure_resource}
use transaction_manager.Shell.Commands.{
  hold, log, refused, read_granted, write_granted, access, active_txn, execute_command, is_listed,
  announce, Swept, keep, sweep, rounds, process_pending,
}
use transaction_manager.Shell.Values.{
  FitsInt32, IsReadable, current_value_exists, update_record-IsReadable,
}
use transaction_manager.Shell.Pending.{process_pending_ends}
use transaction_manager.Shell.Rules.{
  Returns, bind-Returns, Fits, KeepsResources, Then, say_rule, hold_rule, ensure_resource_rule,
}

-- A command with a value of 32 bits.
abbrev pub FitsCommand : Command → Type 0
FitsCommand cmd = FitsInt32 cmd.value

-- What READ and WRITE leave true, where every command satisfies `C`. The transaction of a request and
-- of an update is active, and that of an update has the exclusive lock.
pub record KeepsAccess (C : Command → Type 0) (P : Shell → Type 0) : Type 0 where
  pub resources : KeepsResources P
  pub small : (cmd : Command) → C cmd → FitsCommand cmd
  pub readable : (sh : Shell) → P sh → IsReadable sh.data_store
  pub waiting : (sh : Shell) → P sh → All C sh.pending
  pub pend :
      (cmds : List Command) (sh : Shell) → All C cmds → P sh → P (record sh { pending = cmds })
  pub ask :
      (label : Bytes) (txn id : ℕ) (t : LockType) (sh : Shell)
      → active_txn label sh ≡ some txn
      → P sh
      → P (record sh { lock_mgr = (request_lock txn id t sh.lock_mgr).1 })
  pub write :
      (clock : Clock) (cmd : Command) (txn id : ℕ) (sh : Shell)
      → Fits clock
      → C cmd
      → active_txn cmd.txn_label sh ≡ some txn
      → covers txn exclusive (at id sh.lock_mgr.resource_locks) ≡ true
      → P sh
      → P (
          log clock txn update (record sh {
            data_store = (update_record id (print_int cmd.value) (clock.system id) sh.data_store).1;
          }))

-- Beside `P`, making resources keeps the transactions and their labels.
record Framed (P : Shell → Type 0) (tm : TransactionManager) (txn_ids : Table) (sh : Shell)
    : Type 0 where
  holds : P sh
  same_tm : sh.tm ≡ tm
  same_ids : sh.txn_ids ≡ txn_ids

Framed-rules :
    (P : Shell → Type 0) (tm : TransactionManager) (txn_ids : Table)
    → KeepsResources P
    → KeepsResources (Framed P tm txn_ids)
Framed-rules P tm txn_ids rules = record {
  quiet = λ output held sh f. record {
    holds = rules.quiet output held sh f.holds;
    same_tm = f.same_tm;
    same_ids = f.same_ids;
  };
  resource = λ path last_id r sh own_id value f. record {
    holds = rules.resource path last_id r sh own_id value f.holds;
    same_tm = unfold with_resource in f.same_tm;
    same_ids = unfold with_resource in f.same_ids;
  };
}

active-Framed :
    (P : Shell → Type 0) (label : Bytes) (txn : ℕ) (sh sh' : Shell)
    → Framed P sh.tm sh.txn_ids sh'
    → active_txn label sh ≡ some txn
    → active_txn label sh' ≡ some txn
unfolding active_txn
active-Framed P label txn sh sh' f e = rw (f.same_ids, f.same_tm) e

module _ (C : Command → Type 0) (P : Shell → Type 0) (rules : KeepsAccess C P) (clock : Clock)
    (fits : Fits clock) where
  refused_rule :
      (from_pending : Bool) (cmd : Command) (sh : Shell) → P sh → P (refused from_pending cmd sh)
  unfolding refused
  refused_rule true cmd sh p = p
  refused_rule false cmd sh p = say_rule P rules.resources _ sh p

  access_rule :
      (cmd : Command) (from_pending : Bool) (txn : ℕ) (t : LockType)
      (granted : ℕ → Shell → Result (Bool × Shell)) (sh : Shell)
      → active_txn cmd.txn_label sh ≡ some txn
      → ((id : ℕ) (sh' : Shell)
          → active_txn cmd.txn_label sh' ≡ some txn
          → covers txn t (at id sh'.lock_mgr.resource_locks) ≡ true
          → P sh'
          → Returns (Then P) (granted id sh'))
      → P sh
      → Returns (Then P) (access clock cmd from_pending txn t granted sh)
  unfolding access
  access_rule cmd from_pending txn t granted sh e next p =
      bind-Returns (Then (Framed P sh.tm sh.txn_ids)) (Then P)
        (ensure_resource clock cmd.resource_name sh) _
        (ensure_resource_rule (Framed P sh.tm sh.txn_ids)
          (Framed-rules P sh.tm sh.txn_ids rules.resources) clock cmd.resource_name sh
          (record { holds = p; same_tm = refl; same_ids = refl }))
        (λ (id, sh') f.
          let active = active-Framed P cmd.txn_label txn sh sh' f e in
          let asked : Shell = record sh' { lock_mgr = (request_lock txn id t sh'.lock_mgr).1 } in
          let kept : P asked = rules.ask cmd.txn_label txn id t sh' active f.holds in
          elim (Bool-cases (request_lock txn id t sh'.lock_mgr).0) [
            | inl yes_granted ↦ rw yes_granted (
                next id asked (unfold active_txn in active)
                  (granted-covers txn id t sh'.lock_mgr yes_granted) kept)
            | inr not_granted ↦ rw not_granted (refused_rule from_pending cmd asked kept)
          ])

  read_rule :
      (cmd : Command) (txn id : ℕ) (sh : Shell)
      → P sh
      → Returns (Then P) (read_granted cmd txn id sh)
  unfolding read_granted
  read_rule cmd txn id sh p =
      let (v, e) = current_value_exists id sh (rules.readable sh p) in
      rw e (say_rule P rules.resources _ (hold txn id sh) (hold_rule P rules.resources txn id sh p))

  write_rule :
      (cmd : Command) (txn id : ℕ) (sh : Shell)
      → C cmd
      → active_txn cmd.txn_label sh ≡ some txn
      → covers txn exclusive (at id sh.lock_mgr.resource_locks) ≡ true
      → P sh
      → Returns (Then P) (write_granted clock cmd txn id sh)
  unfolding write_granted hold
  write_rule cmd txn id sh small active covered p =
      let (b, e, _) =
        update_record-IsReadable id cmd.value (clock.system id) sh.data_store
          (rules.small cmd small) (rules.readable sh p) in
      rw e (
        say_rule P rules.resources _ _ (
          rules.write clock cmd txn id (hold txn id sh) fits small (unfold active_txn in active)
            covered (hold_rule P rules.resources txn id sh p)))

  pub execute_command_rule :
      (cmd : Command) (from_pending : Bool) (sh : Shell)
      → C cmd
      → P sh
      → Returns (Then P) (execute_command clock cmd from_pending sh)
  unfolding execute_command
  execute_command_rule cmd from_pending sh small p =
      elim (Option-cases (active_txn cmd.txn_label sh)) [
        | inl e ↦ rw (e, execute_command) p
        | inr (txn, e) ↦
            rw (e, execute_command)
              (elim (Bool-cases (str_eq cmd.op (codes "READ"))) [
                | inl is_read ↦ rw is_read (
                    access_rule cmd from_pending txn shared (read_granted cmd txn) sh e
                      (λ id sh' _ _. read_rule cmd txn id sh') p)
                | inr not_read ↦ rw not_read (elim (Bool-cases (str_eq cmd.op (codes "WRITE"))) [
                  | inl is_write ↦ rw is_write (
                      access_rule cmd from_pending txn exclusive (write_granted clock cmd txn) sh e
                        (λ id sh' active covered. write_rule cmd txn id sh' small active covered) p)
                  | inr not_write ↦ rw not_write p
                ])
              ])
      ]

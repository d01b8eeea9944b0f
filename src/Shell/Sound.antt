-- ===== src/Shell/Sound.antt =====
-- What each change of the state keeps of the log, the store and the ranges of the numbers.
pub mod Run
use transaction_manager.Shared.{
  ℕ, ◌<◌, true, Option, some, List, [], ◌∷◌, ◌++◌, Bytes, ok, ◌≡◌, refl, All, arith,
}
use transaction_manager.Shared.OrderedMap.{OrderedMap, find}
use transaction_manager.Shared.OrderedSet.{OrderedSet}
use transaction_manager.Concurrency.LockManager.State.{LockManager}
use transaction_manager.Concurrency.LockManager.Request.{request_lock}
use transaction_manager.Constants.{u32_mod}
use transaction_manager.Shared.Text.{ℤ, print_int}
use transaction_manager.Storage.Record.{Record}
use transaction_manager.Storage.DataStore.{empty, get_record, update_record}
use transaction_manager.Transaction.TransactionManager
use transaction_manager.Transaction.TransactionManager.{
  TransactionManager, is_transaction_active, begin_transaction, commit_transaction,
  abort_transaction, abort_all_transactions, get_active_transaction_ids,
}
use transaction_manager.Transaction.TransactionManager.Invariant.{next-abort, next-abort_each}
use transaction_manager.Transaction.Transaction
use transaction_manager.Recovery.LogRecord.{
  LogType, LogRecord, begin, update, commit, abort, checkpoint,
}
use transaction_manager.Recovery.LogManager.{LogManager, flush_logs}
use transaction_manager.Recovery.LogManager.Contents.{Holds, write_log-Holds, flush_logs-Holds}
use transaction_manager.Recovery.RecoveryManager
use transaction_manager.Recovery.RecoveryManager.{perform_recovery}
use transaction_manager.Recovery.RecoveryManager.Analysis.{with_aborts}
use transaction_manager.Recovery.RecoveryManager.Restart.{
  flush_logs-IsDurable, perform_recovery-Recovered,
}
use transaction_manager.Shell.State.{Shell, Event, Clock, Command, lookup, start, with_resource}
use transaction_manager.Shell.Commands.{log, say, active_txn}
use transaction_manager.Shell.Dispatch.{begun, ended, after_recovery, recover_command}
use transaction_manager.Shell.Input.{leave, run_main}
use transaction_manager.Shell.Resources.{lookup-All, store-All}
use transaction_manager.Shell.Values.{
  FitsInt32, HasValue, IsReadable, insert_record-IsReadable, update_record-IsReadable,
}
use transaction_manager.Shell.Rules.{Returns, Fits, KeepsResources}
use transaction_manager.Shell.AccessRules.{FitsCommand, KeepsAccess}
use transaction_manager.Shell.CommandRules.{KeepsCommands}
use transaction_manager.Shell.Program.{run_main_rule}

-- The log holds these records, every value in the store can be read, and all numbers are in range.
pub record IsSound (rs : List LogRecord) (sh : Shell) : Type 0 where
  pub logged : Holds rs sh.log_mgr
  pub values : IsReadable sh.data_store
  pub waiting : All FitsCommand sh.pending
  pub ids : All (λ (e : Bytes × ℕ). e.1 < u32_mod) sh.txn_ids
  pub next : sh.tm.next_transaction_id < u32_mod

pub known_id :
    (label : Bytes) (txn : ℕ) (rs : List LogRecord) (sh : Shell)
    → IsSound rs sh
    → lookup label sh.txn_ids ≡ some txn
    → txn < u32_mod
known_id label txn rs sh s e = lookup-All (λ id. id < u32_mod) label txn sh.txn_ids s.ids e

pub active-lookup :
    (label : Bytes) (txn : ℕ) (sh : Shell)
    → active_txn label sh ≡ some txn
    → (lookup label sh.txn_ids ≡ some txn) × (is_transaction_active txn sh.tm ≡ true)
unfolding active_txn
active-lookup label txn sh e = ground arith

-- The record that `log` writes.
abbrev pub entry : Clock → ℕ → LogType → LogRecord
entry clock txn t = record { transaction_id = txn; log_type = t; timestamp = clock.seconds txn }

pub log-Holds :
    (clock : Clock) (txn : ℕ) (t : LogType) (rs : List LogRecord) (sh : Shell)
    → Fits clock
    → txn < u32_mod
    → Holds rs sh.log_mgr
    → Holds (rs ++ entry clock txn t ∷ []) (log clock txn t sh).log_mgr
unfolding log
log-Holds clock txn t rs sh fits small h =
    write_log-Holds rs (entry clock txn t) sh.log_mgr (record { time = fits txn; id = small }) h

pub resource-IsSound :
    (path : Bytes) (last_id : ℕ) (r : Record) (rs : List LogRecord) (sh : Shell)
    → HasValue r
    → IsSound rs sh
    → IsSound rs (with_resource path last_id r sh)
unfolding with_resource
resource-IsSound path last_id r rs sh value s = record {
  logged = s.logged;
  values = insert_record-IsReadable r sh.data_store value s.values;
  waiting = s.waiting;
  ids = s.ids;
  next = s.next;
}

pub write-IsSound :
    (clock : Clock) (label : Bytes) (txn id : ℕ) (v : ℤ) (rs : List LogRecord) (sh : Shell)
    → Fits clock
    → FitsInt32 v
    → active_txn label sh ≡ some txn
    → IsSound rs sh
    → IsSound (rs ++ entry clock txn update ∷ []) (
        log clock txn update (record sh {
          data_store = (update_record id (print_int v) (clock.system id) sh.data_store).1;
        }))
write-IsSound clock label txn id v rs sh fits small e s =
    let (b, _, values) =
      update_record-IsReadable id v (clock.system id) sh.data_store small s.values in
    record {
      logged =
          log-Holds clock txn update rs
            (record sh {
              data_store = (update_record id (print_int v) (clock.system id) sh.data_store).1;
            })
            fits (known_id label txn rs sh s (active-lookup label txn sh e).0) s.logged;
      values = unfold log in values;
      waiting = unfold log in s.waiting;
      ids = unfold log in s.ids;
      next = unfold log in s.next;
    }

pub begun-IsSound :
    (clock : Clock) (label : Bytes) (rs : List LogRecord) (sh : Shell)
    → Fits clock
    → IsSound rs sh
    → IsSound (rs ++ entry clock sh.tm.next_transaction_id begin ∷ []) (begun clock label sh)
unfolding begun begin_transaction log Transaction.create
begun-IsSound clock label rs sh fits s = record {
  logged =
      write_log-Holds rs (entry clock sh.tm.next_transaction_id begin) sh.log_mgr
        (record { time = fits sh.tm.next_transaction_id; id = s.next }) s.logged;
  values = s.values;
  waiting = s.waiting;
  ids =
      store-All (λ id. id < u32_mod) (λ id. id < u32_mod) label sh.tm.next_transaction_id sh.txn_ids
        (λ k h. h) s.next s.ids;
  next = omega arith;
}

pub ended-IsSound :
    (clock : Clock) (txn : ℕ) (t : LogType) (tm' : TransactionManager) (rs : List LogRecord)
    (sh : Shell)
    → Fits clock
    → txn < u32_mod
    → tm'.next_transaction_id ≡ sh.tm.next_transaction_id
    → IsSound rs sh
    → IsSound (rs ++ entry clock txn t ∷ []) (ended clock txn t tm' sh)
unfolding ended log
ended-IsSound clock txn t tm' rs sh fits small same s = record {
  logged =
      write_log-Holds rs (entry clock txn t) sh.log_mgr (record { time = fits txn; id = small })
        s.logged;
  values = s.values;
  waiting = s.waiting;
  ids = s.ids;
  next = omega (arith, same, s.next);
}

pub commit_next :
    (txn now : ℕ) (tm : TransactionManager)
    → (commit_transaction txn now tm).1.next_transaction_id ≡ tm.next_transaction_id
unfolding commit_transaction
commit_next txn now tm = ground arith

pub checkpoint-IsSound :
    (clock : Clock) (rs : List LogRecord) (sh : Shell)
    → Fits clock
    → IsSound rs sh
    → IsSound
        (rs ++ entry clock 0 checkpoint ∷ [])
        (record sh { log_mgr = flush_logs (log clock 0 checkpoint sh).log_mgr })
checkpoint-IsSound clock rs sh fits s = record {
  logged =
      flush_logs-Holds _ (log clock 0 checkpoint sh).log_mgr
        (log-Holds clock 0 checkpoint rs sh fits (omega arith) s.logged);
  values = s.values;
  waiting = s.waiting;
  ids = s.ids;
  next = s.next;
}

-- RECOVER throws nothing, and adds the ABORT records of recovery to the log.
pub recover-IsSound :
    (clock : Clock) (rs : List LogRecord) (sh : Shell)
    → Fits clock
    → IsSound rs sh
    → let (_, log_mgr', m) =
        perform_recovery clock.seconds (flush_logs sh.log_mgr) RecoveryManager.create in
      (recover_command clock sh ≡ ok (after_recovery clock log_mgr' m sh))
      × IsSound (with_aborts clock.seconds rs) (after_recovery clock log_mgr' m sh)
unfolding recover_command after_recovery say
recover-IsSound clock rs sh fits s =
    let r =
      perform_recovery-Recovered clock.seconds fits rs (flush_logs sh.log_mgr)
        RecoveryManager.create (flush_logs-IsDurable rs sh.log_mgr s.logged) in
    (
      rw r.succeeds refl,
      record {
        logged = r.log.holds;
        values = s.values;
        waiting = tt;
        ids = s.ids;
        next =
            unfold abort_all_transactions in
            omega (
              arith,
              next-abort_each (get_active_transaction_ids sh.tm) clock.system sh.tm,
              s.next,
            );
      },
    )

pub quiet-IsSound :
    (output : List Event) (held : OrderedMap OrderedSet) (rs : List LogRecord) (sh : Shell)
    → IsSound rs sh
    → IsSound rs (record sh { output = output; txn_held_resources = held })
quiet-IsSound output held rs sh s = record {
  logged = s.logged;
  values = s.values;
  waiting = s.waiting;
  ids = s.ids;
  next = s.next;
}

pub pend-IsSound :
    (cmds : List Command) (rs : List LogRecord) (sh : Shell)
    → All FitsCommand cmds
    → IsSound rs sh
    → IsSound rs (record sh { pending = cmds })
pend-IsSound cmds rs sh small s = record {
  logged = s.logged;
  values = s.values;
  waiting = small;
  ids = s.ids;
  next = s.next;
}

pub ask-IsSound :
    (m : LockManager) (rs : List LogRecord) (sh : Shell)
    → IsSound rs sh
    → IsSound rs (record sh { lock_mgr = m })
ask-IsSound m rs sh s = record {
  logged = s.logged;
  values = s.values;
  waiting = s.waiting;
  ids = s.ids;
  next = s.next;
}

pub start-IsSound :
    (place : ℕ → ℕ) (log_mgr : LogManager) (rs : List LogRecord)
    → Holds rs log_mgr
    → IsSound rs (start place log_mgr)
unfolding start TransactionManager.init empty get_record find
start-IsSound place log_mgr rs h = record {
  logged = h;
  values = λ k r e. absurd (cc);
  waiting = tt;
  ids = tt;
  next = omega arith;
}

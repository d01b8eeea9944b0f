-- ===== src/Shell/Tests.antt =====
-- The commands at concrete inputs.
use transaction_manager.Shared.{◌+◌, true, none, some, [], ◌∷◌, ◌≡◌, refl, Result, ok, arith}
use transaction_manager.Shared.OrderedMap
use transaction_manager.Shared.Text.{codes, pieces, pos}
use transaction_manager.Transaction.TransactionManager.{get_active_transaction_count}
use transaction_manager.Transaction.TransactionManager.Invariant.{init-IsValid}
use transaction_manager.Storage.DataStore.{empty, record_exists, insert_record, get_record}
use transaction_manager.Storage.Record
use transaction_manager.Storage.Record.{set_data, get_size}
use transaction_manager.Recovery.LogManager.{create}
use transaction_manager.Recovery.RecoveryManager
use transaction_manager.Recovery.RecoveryManager.{RecoveryManager}
use transaction_manager.Recovery.LogManager.Contents.{render}
use transaction_manager.Recovery.RecoveryManager.Analysis.{with_aborts}
use transaction_manager.Recovery.RecoveryManager.Restart.{IsDurable}
use transaction_manager.Shell.State.{Shell, Clock, start, ensure_resource}
use transaction_manager.Shell.Resources.{IsStocked, Ensures, ensure_resource-Ensures}
use transaction_manager.Shell.Commands.{process_pending}
use transaction_manager.Shell.Pending.{process_pending_ends}
use transaction_manager.Shell.Dispatch.{recover_command}
use transaction_manager.Shell.Recover.{recover_command_lem}
use transaction_manager.Shared.{raise, ℕ, Bool, true, false, List, ◌++◌, Bytes, ◌||◌, length, ◌<◌}
use transaction_manager.Constants.{u32_mod}
use transaction_manager.Concurrency.LockManager.State.{
  at, has_lock, compatible_with_all, insert_lock, find_lock, is_complete, with_entry, holds,
}
use transaction_manager.Concurrency.LockManager.Compatibility.{IsSafe, init-IsSafe}
use transaction_manager.Concurrency.LockManager.State
use transaction_manager.Concurrency.LockManager.Request.{
  request_lock, request_lock_on_resource, ensure_ancestor_intention_locks,
  get_ancestor_intention_type, lock_each, ancestors, climb, acquire, touch, grant,
}
use transaction_manager.Enums.{exclusive, lock_type_eq}
use transaction_manager.Shared.OrderedSet.{contains}
use transaction_manager.Shared.OrderedSet
use transaction_manager.Shared.OrderedMap.{find, insert}
use transaction_manager.Shared.Text.{
  str_eq, print_int, print_nat, print_digits, stoll, skip_spaces, read_sign, read_magnitude,
  read_digits,
}
use transaction_manager.Transaction.TransactionManager
use transaction_manager.Transaction.Transaction
use transaction_manager.Transaction.TransactionManager.{
  get_transaction, is_transaction_active, begin_transaction,
}
use transaction_manager.Transaction.TransactionManager.AbortAll.{is_ended}
use transaction_manager.Recovery.LogManager.{LogManager, newline}
use transaction_manager.Recovery.LogManager.Contents.{Holds}
use transaction_manager.Shell.State.{
  Command, lookup, store, ensure_each, add_resource, make_record, with_resource, initial_value,
}
use transaction_manager.Shell.Commands.{
  active_txn, execute_command, log, access, read_granted, current_value, bytes_to_int, say, hold,
}
use transaction_manager.Shell.Dispatch.{begun}
use transaction_manager.Shell.Input.{words, word, parse_line, run_lines, run_input, run_main, leave}
use transaction_manager.Shell.Sound.Run.{IsSomeSound, run_main_returns}
use transaction_manager.Shell.Consistency.Kept.{
  IsConsistent, IsConsistent-rules, start-IsConsistent,
}
use transaction_manager.Shell.Consistency.Run.{Reported, recover_left, run_main_agrees}
use transaction_manager.Shell.Locks.{keeps_apart, run_main-keeps_apart, run_lines_keeps_locks}
use transaction_manager.Shell.Executed.{Executed, execute_command-Executed}
use transaction_manager.Storage.Record.{Record}
use transaction_manager.Concurrency.LockManager.Sole.{sole}
use transaction_manager.Shared.{◌⊎◌}
use transaction_manager.Shell.Isolation.Run.{run_lines_isolates}
use transaction_manager.Shell.Lines.{write_line, spell, spelled, meant, parse_line-spelled}

abbrev clock : Clock
clock = record { system = λ _. 100; seconds = λ _. pos 1700000000 }

abbrev shell : Shell
shell = start (λ n. n) (create (λ _. true) (λ _. 0) none)

shell-IsStocked : IsStocked shell
unfolding start empty record_exists OrderedMap.find
shell-IsStocked = record { ids = tt; fresh = λ k h. refl; first = omega arith }

ensure_resource-Ensures_example : Ensures shell (ensure_resource clock (codes "A.B") shell)
unfolding start pieces
ensure_resource-Ensures_example =
    ensure_resource-Ensures clock (codes "A.B") shell shell-IsStocked (omega arith)

-- One pending command of a transaction that is not known.
abbrev waiting_shell : Shell
waiting_shell = record shell {
  pending =
      record { op = codes "READ"; txn_label = codes "T1"; resource_name = codes "A"; value = pos 0 }
      ∷ [];
}

process_pending_ends_example :
    (result : Result Shell) × (process_pending clock waiting_shell ≡ some result)
process_pending_ends_example = process_pending_ends clock waiting_shell

recover_command_lem_example :
    (sh' : Shell) × (recover_command clock waiting_shell ≡ ok sh')
    × (get_active_transaction_count sh'.tm ≡ 0)
    × (sh'.pending ≡ [])
    × (sh'.tm.committed_count ≡ waiting_shell.tm.committed_count)
    × (sh'.tm.aborted_count
        ≡ waiting_shell.tm.aborted_count + get_active_transaction_count waiting_shell.tm)
    × IsDurable (with_aborts clock.seconds []) sh'.log_mgr
unfolding start create render
recover_command_lem_example =
    recover_command_lem clock [] waiting_shell (λ _. omega arith)
      (record { open_log = refl; text = refl; legal = tt }) init-IsValid

-- Three lines of input.
abbrev script : Bytes
script = codes "BEGIN T1" ++ newline ∷ codes "WRITE T1 A 5" ++ newline ∷ codes "COMMIT T1"

abbrev new_log : LogManager
new_log = create (λ _. true) (λ _. 0) none

new_log-Holds : Holds [] new_log
unfolding create render
new_log-Holds = record { open_log = refl; text = refl; legal = tt }

run_main_returns_example :
    (sh : Shell) × (run_input (λ _. clock) (λ n. n) new_log (some script) [] ≡ some (ok sh))
    × (run_main (λ _. clock) (λ n. n) new_log (some script) [] ≡ some (ok (leave clock sh)))
    × IsSomeSound sh
run_main_returns_example =
    run_main_returns (λ _. clock) (λ n. n) new_log [] (some script) [] (λ _ _. omega arith)
      new_log-Holds

run_main_agrees_example :
    (sh : Shell) × (run_input (λ _. clock) (λ n. n) new_log (some script) [] ≡ some (ok sh))
    × (run_main (λ _. clock) (λ n. n) new_log (some script) [] ≡ some (ok (leave clock sh)))
    × ((recover_left clock (λ _. true) (λ _. 1) RecoveryManager.create (leave clock sh)).0 ≡ ok tt)
    × Reported
        (recover_left clock (λ _. true) (λ _. 1) RecoveryManager.create (leave clock sh)).2
        sh
unfolding pieces create
run_main_agrees_example =
    run_main_agrees (λ _. clock) (λ n. n) new_log (some script) [] clock (λ _. true) (λ _. 1)
      RecoveryManager.create (λ _ _. omega arith) new_log-Holds (omega arith) (λ _. omega arith)
      refl

run_main-keeps_apart_example :
    (sh : Shell) × (run_input (λ _. clock) (λ n. n) new_log (some script) [] ≡ some (ok sh))
    × (run_main (λ _. clock) (λ n. n) new_log (some script) [] ≡ some (ok (leave clock sh)))
    × ((resource : ℕ) → keeps_apart (at resource sh.lock_mgr.resource_locks) ≡ true)
run_main-keeps_apart_example =
    run_main-keeps_apart (λ _. clock) (λ n. n) new_log [] (some script) [] (λ _ _. omega arith)
      new_log-Holds

parse_line-spelled_example :
    parse_line (spell (spelled (write_line (codes "T1") (codes "A") (pos 5))))
    ≡ meant (write_line (codes "T1") (codes "A") (pos 5))
parse_line-spelled_example = parse_line-spelled (write_line (codes "T1") (codes "A") (pos 5)) (
  record { there = λ e. cc; ink = (refl, (refl, tt)) },
  record { there = λ e. cc; ink = (refl, tt) },
  omega arith,
)

-- T1 has begun, and has locked resource 1.
abbrev t1_begun : Shell
t1_begun = begun clock (codes "T1") shell

abbrev t1_holds : Shell
t1_holds = record t1_begun { lock_mgr = (request_lock 1 1 exclusive t1_begun.lock_mgr).1 }

t1_begun-IsConsistent : IsConsistent 1 t1_begun
unfolding start lookup
t1_begun-IsConsistent =
    IsConsistent-rules.begins 0 clock (codes "T1") shell (λ _. omega arith) refl
      (start-IsConsistent (λ n. n) new_log new_log-Holds)

t1_holds-IsConsistent : IsConsistent 1 t1_holds
unfolding active_txn begun begin_transaction Transaction.create log start lookup store
    is_transaction_active find insert TransactionManager.init str_eq
t1_holds-IsConsistent =
    (IsConsistent-rules.accesses 1).ask (codes "T1") 1 1 exclusive t1_begun refl
      (unfold begun begin_transaction Transaction.create log in t1_begun-IsConsistent)

abbrev later_lines : List (Clock × Bytes)
later_lines =
    (clock, codes "BEGIN T2") ∷ (clock, codes "WRITE T2 A 7") ∷ (clock, codes "STATUS") ∷ []

t1_holds-room : length t1_holds.txn_ids + length later_lines + 1 < u32_mod
unfolding begun begin_transaction Transaction.create log start lookup store TransactionManager.init
t1_holds-room = omega arith

t1_holds-lock : has_lock 1 1 t1_holds.lock_mgr ≡ true
unfolding begun begin_transaction Transaction.create log start State.init request_lock
    ensure_ancestor_intention_locks get_ancestor_intention_type lock_each ancestors climb
    request_lock_on_resource acquire touch grant with_entry insert_lock find_lock
    compatible_with_all is_complete holds has_lock contains find insert OrderedSet.insert
    lock_type_eq
t1_holds-lock = refl

run_lines_keeps_locks_example :
    (sh' : Shell) × (run_lines later_lines t1_holds ≡ some (ok sh'))
    × ((is_ended (get_transaction 1 sh'.tm) || has_lock 1 1 sh'.lock_mgr) ≡ true)
run_lines_keeps_locks_example =
    run_lines_keeps_locks later_lines 1 1 t1_holds-IsConsistent.log_records t1_holds
      ((λ _. omega arith), ((λ _. omega arith), ((λ _. omega arith), tt)))
      t1_holds-IsConsistent.sound (t1_holds-IsConsistent.agrees (omega arith)) t1_holds-room
      t1_holds-lock

-- READ T1 A, by a transaction that has begun.
abbrev read_a : Command
read_a = record {
  op = codes "READ";
  txn_label = codes "T1";
  resource_name = codes "A";
  value = pos 0;
}

abbrev or_else : Shell → Result (Bool × Shell) → Shell
or_else sh (ok (executed, sh')) = sh'
or_else sh (raise e) = sh

abbrev read_done : Shell
read_done = or_else t1_begun (execute_command clock read_a false t1_begun)

t1_begun-IsSafe : IsSafe t1_begun.lock_mgr
unfolding begun begin_transaction Transaction.create log start
t1_begun-IsSafe = init-IsSafe (λ n. n)

read_executed : execute_command clock read_a false t1_begun ≡ ok (true, read_done)
unfolding execute_command active_txn access ensure_resource ensure_each add_resource make_record
    with_resource initial_value read_granted current_value bytes_to_int say hold lookup store pieces
    str_eq print_int print_nat print_digits set_data get_size Record.create insert_record get_record
    empty stoll skip_spaces read_sign read_magnitude read_digits is_transaction_active begun
    begin_transaction Transaction.create log start State.init TransactionManager.init request_lock
    ensure_ancestor_intention_locks get_ancestor_intention_type lock_each ancestors climb
    request_lock_on_resource acquire touch grant with_entry insert_lock find_lock
    compatible_with_all is_complete contains find insert OrderedSet.insert lock_type_eq
read_executed = refl

execute_command-Executed_example : Executed clock read_a t1_begun read_done
execute_command-Executed_example =
    execute_command-Executed clock read_a false t1_begun read_done t1_begun-IsSafe read_executed

-- T1 has begun, and has the only lock on the resource A with its record.
abbrev record_a : Record
record_a = record {
  record_id = 1;
  payload = print_int (pos 10);
  created_time = 100;
  modified_time = 100;
}

abbrev t1_owns : Shell
t1_owns = with_resource (codes "A") 0 record_a t1_holds

t1_owns-IsConsistent : IsConsistent 1 t1_owns
unfolding begun begin_transaction Transaction.create log start
t1_owns-IsConsistent =
    (IsConsistent-rules.accesses 1).resources.resource (codes "A") 0 record_a t1_holds refl
      (pos 10, omega arith, refl)
      (unfold begun begin_transaction Transaction.create log in t1_holds-IsConsistent)

t1_owns-room : length t1_owns.txn_ids + length later_lines + 1 < u32_mod
unfolding with_resource begun begin_transaction Transaction.create log start lookup store
    TransactionManager.init
t1_owns-room = omega arith

t1_owns-lock : at 1 t1_owns.lock_mgr.resource_locks ≡ sole 1
unfolding with_resource begun begin_transaction Transaction.create log start State.init request_lock
    ensure_ancestor_intention_locks get_ancestor_intention_type lock_each ancestors climb
    request_lock_on_resource acquire touch grant with_entry insert_lock find_lock
    compatible_with_all is_complete contains find insert OrderedSet.insert lock_type_eq
t1_owns-lock = refl

run_lines_isolates_example :
    (sh' : Shell) × (run_lines later_lines t1_owns ≡ some (ok sh'))
    × ((is_ended (get_transaction 1 sh'.tm) ≡ true)
        ⊎ ((at 1 sh'.lock_mgr.resource_locks ≡ sole 1)
            × (get_record 1 sh'.data_store ≡ some record_a)))
unfolding with_resource begun begin_transaction Transaction.create log start lookup store
    TransactionManager.init find insert insert_record get_record empty parse_line words word str_eq
run_lines_isolates_example =
    run_lines_isolates later_lines 1 1 (codes "T1") record_a t1_owns-IsConsistent.log_records
      t1_owns ((λ _. omega arith), ((λ _. omega arith), ((λ _. omega arith), tt)))
      (refl, (refl, (refl, tt))) tt t1_owns-IsConsistent.sound
      (t1_owns-IsConsistent.agrees (omega arith)) t1_owns-room (λ k e. ground (arith, e))
      (omega arith) t1_owns-lock refl

-- ===== src/Shell/Scenarios.antt =====
-- Whole runs on concrete input, with what they print.
use transaction_manager.Shared.{
  Option, none, some, List, [], ◌∷◌, Bytes, Result, ok, raise, ◌≡◌, refl, true,
}
use transaction_manager.Shell.State.{
  lookup, store, start, make_record, with_resource, add_resource, initial_value, ensure_each,
  ensure_resource,
}
use transaction_manager.Shell.Commands.{
  bytes_to_int, say, hold, log, current_value, refused, read_granted, write_granted, access,
  active_txn, execute_command, has_pending_for_txn, is_listed, announce, sweep, rounds,
  process_pending,
}
use transaction_manager.Shell.Dispatch.{
  begun, begin_command, access_command, ended, finish_transaction, commit_command, abort_command,
  show_command, status_command, checkpoint_command, complete_each, release_held, after_recovery,
  recover_command, execute_line,
}
use transaction_manager.Shell.Input.{
  words, word, extract_int, parse_line, handle_line, run_lines, timed, leave, run_input, run_main,
}
use transaction_manager.Storage.Record
use transaction_manager.Storage.Record.{set_data, get_size}
use transaction_manager.Storage.DataStore
use transaction_manager.Storage.DataStore.{
  insert_record, get_record, record_exists, delete_record, write_back, update_record,
  get_record_count, add_sizes, get_total_size, get_all_record_ids,
}
use transaction_manager.Transaction.Transaction
use transaction_manager.Transaction.Transaction.{
  set_state, has_accessed, record_accessed_record, increment_read_count, increment_write_count,
  is_completed, set_error_message,
}
use transaction_manager.Transaction.TransactionManager
use transaction_manager.Transaction.TransactionManager.{
  begin_transaction, commit_transaction, abort_transaction, get_transaction, is_transaction_active,
  get_active_transaction_ids, get_active_transaction_count, get_total_transaction_count,
  clear_completed_transactions, abort_each, abort_all_transactions, destroy_manager,
}
use transaction_manager.Concurrency.Lock.{is_compatible, conflicts}
use transaction_manager.Concurrency.LockManager.State
use transaction_manager.Concurrency.LockManager.State.{
  with_entry, insert_lock, find_lock, erase_lock, compatible_with_others, compatible_with_all,
  is_waiting, is_complete, holds, remove_locks, has_lock, strongest, get_lock_type,
}
use transaction_manager.Concurrency.LockManager.Request.{
  set_resource_parent, grant, enqueue, upgrade, acquire, touch, request_lock_on_resource,
  get_ancestor_intention_type, climb, ancestors, lock_each, ensure_ancestor_intention_locks,
  request_lock,
}
use transaction_manager.Concurrency.LockManager.Release.{
  erase_if_empty, granted_head, serve, process_wait_queue, forget, removed, after_removal,
  release_lock, release_each, mark_complete, complete_transaction,
}
use transaction_manager.Shared.Text.{
  str_eq, pieces, cut, print_digits, print_nat, print_int, read_digits, skip_spaces, read_magnitude,
  read_sign, stoll, stoul,
}
use transaction_manager.Shared.OrderedMap
use transaction_manager.Shared.OrderedSet
use transaction_manager.Shared.OrderedSet.{contains}
use transaction_manager.Enums.{lock_type_eq, transaction_state_eq}
use transaction_manager.Recovery.LogManager.{LogManager}
use transaction_manager.Recovery.LogManager
use transaction_manager.Shared.Text.{codes, pos}
use transaction_manager.Shell.State.{
  Shell, Event, Clock, resumes, reads, writes, started, committed, aborted, waiting_for,
}

abbrev clock : Clock
clock = record { system = λ _. 100; seconds = λ _. pos 1700000000 }

abbrev new_shell : Shell
new_shell = start (λ n. n) (LogManager.create (λ _. true) (λ _. 0) none)

abbrev printed : Option (Result Shell) → List Event
printed none = []
printed (some (raise e)) = []
printed (some (ok sh)) = sh.output

-- The lines one by one, at one time.
abbrev lines_of : List Bytes → List (Clock × Bytes)
lines_of [] = []
lines_of (line ∷ lines) = (clock, line) ∷ lines_of lines

abbrev says : List Bytes → List Event
says lines = printed (run_lines (lines_of lines) new_shell)

-- One transaction writes and reads what it has written.
abbrev one_transaction : List Bytes
one_transaction =
    codes "BEGIN T1" ∷ codes "WRITE T1 A 5" ∷ codes "READ T1 A" ∷ codes "COMMIT T1" ∷ []

-- The second writer waits for the first to commit.
abbrev two_writers : List Bytes
two_writers =
    codes "BEGIN T1"
    ∷ codes "BEGIN T2"
    ∷ codes "WRITE T1 A 1"
    ∷ codes "WRITE T2 A 2"
    ∷ codes "COMMIT T1"
    ∷ codes "EXIT"
    ∷ codes "COMMIT T2"
    ∷ []

-- T2 waits for A, and asks for B after that; then T3 ends.
abbrev overtaking : List Bytes
overtaking =
    codes "BEGIN T1"
    ∷ codes "BEGIN T2"
    ∷ codes "BEGIN T3"
    ∷ codes "WRITE T1 A 1"
    ∷ codes "WRITE T2 A 2"
    ∷ codes "WRITE T2 B 3"
    ∷ codes "ABORT T3"
    ∷ []

-- T2 commits while its only command waits.
abbrev lost_write : List Bytes
lost_write =
    codes "BEGIN T1"
    ∷ codes "BEGIN T2"
    ∷ codes "WRITE T1 A 1"
    ∷ codes "WRITE T2 A 2"
    ∷ codes "COMMIT T2"
    ∷ codes "COMMIT T1"
    ∷ []

scenarios_test :
    (says one_transaction
      ≡ started (codes "T1")
        ∷ writes (codes "T1") (codes "A") (pos 5)
        ∷ reads (codes "T1") (codes "A") (pos 5)
        ∷ committed (codes "T1")
        ∷ [])
    × (says two_writers
        ≡ started (codes "T1")
          ∷ started (codes "T2")
          ∷ writes (codes "T1") (codes "A") (pos 1)
          ∷ waiting_for (codes "T2") (codes "A")
          ∷ committed (codes "T1")
          ∷ resumes (codes "T2")
          ∷ writes (codes "T2") (codes "A") (pos 2)
          ∷ [])
    × (says overtaking
        ≡ started (codes "T1")
          ∷ started (codes "T2")
          ∷ started (codes "T3")
          ∷ writes (codes "T1") (codes "A") (pos 1)
          ∷ waiting_for (codes "T2") (codes "A")
          ∷ aborted (codes "T3")
          ∷ writes (codes "T2") (codes "B") (pos 3)
          ∷ [])
    × (says lost_write
        ≡ started (codes "T1")
          ∷ started (codes "T2")
          ∷ writes (codes "T1") (codes "A") (pos 1)
          ∷ waiting_for (codes "T2") (codes "A")
          ∷ committed (codes "T2")
          ∷ committed (codes "T1")
          ∷ [])
unfolding lookup store start make_record with_resource add_resource initial_value ensure_each
    ensure_resource bytes_to_int say hold log current_value refused read_granted write_granted
    access active_txn execute_command has_pending_for_txn is_listed announce sweep rounds
    process_pending begun begin_command access_command ended finish_transaction commit_command
    abort_command show_command status_command checkpoint_command complete_each release_held
    after_recovery recover_command execute_line words word extract_int parse_line handle_line
    run_lines timed leave run_input run_main set_data get_size Record.create insert_record
    get_record record_exists delete_record write_back update_record get_record_count add_sizes
    get_total_size get_all_record_ids DataStore.empty DataStore.clear set_state has_accessed
    record_accessed_record increment_read_count increment_write_count is_completed set_error_message
    Transaction.create begin_transaction commit_transaction abort_transaction get_transaction
    is_transaction_active get_active_transaction_ids get_active_transaction_count
    get_total_transaction_count clear_completed_transactions abort_each abort_all_transactions
    destroy_manager TransactionManager.init is_compatible conflicts with_entry insert_lock find_lock
    erase_lock compatible_with_others compatible_with_all is_waiting is_complete holds remove_locks
    has_lock strongest get_lock_type State.init set_resource_parent grant enqueue upgrade acquire
    touch request_lock_on_resource get_ancestor_intention_type climb ancestors lock_each
    ensure_ancestor_intention_locks request_lock erase_if_empty granted_head serve
    process_wait_queue forget removed after_removal release_lock release_each mark_complete
    complete_transaction str_eq pieces cut print_digits print_nat print_int read_digits skip_spaces
    read_magnitude read_sign stoll stoul OrderedMap.find OrderedMap.insert OrderedMap.erase contains
    OrderedSet.insert OrderedSet.erase lock_type_eq transaction_state_eq
scenarios_test = (refl, refl, refl, refl)

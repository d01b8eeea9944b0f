-- ===== src/Recovery/Tests.antt =====
-- test/test_recovery.cpp, and the theorems on the log and on recovery at concrete inputs.
use transaction_manager.Shared.{
  ℕ, ◌<◌, ◌^◌, true, false, none, some, List, [], ◌∷◌, ◌≡◌, refl, length, ok, raise,
  invalid_argument, arith,
}
use transaction_manager.Shared.OrderedSet
use transaction_manager.Shared.OrderedSet.{contains}
use transaction_manager.Shared.Text.{
  codes, ℤ, pos, str_eq, pieces, cut, read_digits, skip_spaces, read_magnitude, read_sign, stoll,
  stoul,
}
use transaction_manager.Shared.Decimal.{FitsInt64}
use transaction_manager.Recovery.LogRecord.{
  LogType, LogRecord, begin, insert, update, commit, to_string, from_string, read_segments,
  read_segment, read_field, no_fields, string_to_log_type,
}
use transaction_manager.Recovery.LogRecord.RoundTrip.{InRange, from_string-to_string}
use transaction_manager.Recovery.LogManager.{
  LogManager, create, write_log, flush_logs, read_logs, clear_logs,
}
use transaction_manager.Recovery.LogManager.Contents.{
  Holds, render, write_log-Holds, read_logs-flush_logs, clear_logs-Holds,
}
use transaction_manager.Recovery.RecoveryManager.{
  RecoveryManager, analyze_each, redo_each, perform_recovery,
}
use transaction_manager.Recovery.RecoveryManager
use transaction_manager.Recovery.RecoveryManager.Analysis.{
  commits, left_open, analysis_exact, kept, select, redo_exact, with_aborts,
}
use transaction_manager.Recovery.RecoveryManager.Restart.{
  IsDurable, flush_logs-IsDurable, Recovered, perform_recovery-Recovered, perform_recovery_twice,
}

abbrev entry : ℕ → LogType → LogRecord
entry txn t = record { transaction_id = txn; log_type = t; timestamp = pos 1700000000 }

-- The log of the test: transaction 1 committed, transaction 2 did not end.
abbrev log_records : List LogRecord
log_records = entry 1 begin ∷ entry 1 insert ∷ entry 1 commit ∷ entry 2 begin ∷ entry 2 update ∷ []

entry-InRange : (txn : ℕ) (t : LogType) → txn < 2 ^ 32 → InRange (entry txn t)
entry-InRange txn t h = record { time = omega arith; id = h }

from_string-to_string_example :
    from_string (to_string (entry 2 update)) ≡ ok (some (entry 2 update))
from_string-to_string_example =
    from_string-to_string (entry 2 update) (entry-InRange 2 update (omega arith))

-- A number that cannot be read raises an exception; a segment that is missing gives no record.
malformed_tests :
    (from_string (codes "timestamp=x,txn=1,type=BEGIN") ≡ raise invalid_argument)
    × (from_string (codes "timestamp=1,type=BEGIN") ≡ ok none)
unfolding from_string read_segments read_segment read_field no_fields pieces cut str_eq stoll stoul
    skip_spaces read_sign read_magnitude read_digits string_to_log_type
malformed_tests = (refl, refl)

-- A file that does not exist, which can be opened, through a stream that keeps all text until it
-- is flushed.
abbrev new_log : LogManager
new_log = create (λ _. true) (λ _. 0) none

new_log-Holds : Holds [] new_log
unfolding create render
new_log-Holds = record { open_log = refl; text = refl; legal = tt }

abbrev write_all : List LogRecord → LogManager → LogManager
write_all [] log = log
write_all (r ∷ rs) log = write_all rs (write_log (some r) log)

written-Holds : Holds log_records (write_all log_records new_log)
written-Holds =
    write_log-Holds (entry 1 begin ∷ entry 1 insert ∷ entry 1 commit ∷ entry 2 begin ∷ [])
      (entry 2 update) _ (entry-InRange 2 update (omega arith))
      (write_log-Holds (entry 1 begin ∷ entry 1 insert ∷ entry 1 commit ∷ []) (entry 2 begin) _
        (entry-InRange 2 begin (omega arith))
        (write_log-Holds (entry 1 begin ∷ entry 1 insert ∷ []) (entry 1 commit) _
          (entry-InRange 1 commit (omega arith))
          (write_log-Holds (entry 1 begin ∷ []) (entry 1 insert) _
            (entry-InRange 1 insert (omega arith))
            (write_log-Holds [] (entry 1 begin) new_log (entry-InRange 1 begin (omega arith))
              new_log-Holds))))

write_log-Holds_example : Holds (entry 1 begin ∷ []) (write_log (some (entry 1 begin)) new_log)
write_log-Holds_example =
    write_log-Holds [] (entry 1 begin) new_log (entry-InRange 1 begin (omega arith)) new_log-Holds

read_logs-flush_logs_example :
    read_logs (flush_logs (write_all log_records new_log)) ≡ ok log_records
read_logs-flush_logs_example =
    read_logs-flush_logs log_records (write_all log_records new_log) written-Holds

clear_logs-Holds_example : Holds [] (clear_logs new_log) × ((clear_logs new_log).log_buffer ≡ [])
unfolding create
clear_logs-Holds_example = clear_logs-Holds new_log refl refl (λ _. refl)

abbrev flushed : LogManager
flushed = flush_logs (write_all log_records new_log)

flushed-IsDurable : IsDurable log_records flushed
flushed-IsDurable = flush_logs-IsDurable log_records (write_all log_records new_log) written-Holds

abbrev noon : ℕ → ℤ
noon _ = pos 1700000100

noon_fits : (txn : ℕ) → FitsInt64 (noon txn)
noon_fits txn = omega arith

perform_recovery-Recovered_example :
    Recovered noon noon_fits log_records (perform_recovery noon flushed RecoveryManager.create)
perform_recovery-Recovered_example =
    perform_recovery-Recovered noon noon_fits log_records flushed RecoveryManager.create
      flushed-IsDurable

perform_recovery_twice_example :
    let (_, log', m') = perform_recovery noon flushed RecoveryManager.create in
    let (result, log'', m'') = perform_recovery noon log' RecoveryManager.create in
    (result ≡ ok tt)
    × (m''.undo_records ≡ [])
    × (m''.redo_records ≡ m'.redo_records)
    × IsDurable (with_aborts noon log_records) log''
perform_recovery_twice_example =
    perform_recovery_twice noon noon_fits log_records flushed RecoveryManager.create
      RecoveryManager.create flushed-IsDurable

-- What the test asserts of the recovered manager.
recovery_tests :
    (analyze_each log_records ([], []) ≡ (1 ∷ [], 2 ∷ []))
    × (redo_each (1 ∷ []) log_records ≡ entry 1 insert ∷ [])
    × (length (with_aborts noon log_records) ≡ 6)
unfolding analyze_each RecoveryManager.analyze_record redo_each
    RecoveryManager.is_data_modification_type contains OrderedSet.insert OrderedSet.erase
recovery_tests = (refl, refl, refl)

analysis_exact_example :
    (contains 2 (analyze_each log_records ([], [])).0 ≡ commits 2 log_records)
    × (contains 2 (analyze_each log_records ([], [])).1 ≡ left_open 2 false log_records)
analysis_exact_example = analysis_exact 2 log_records

redo_exact_example :
    redo_each (analyze_each log_records ([], [])).0 log_records
    ≡ select (kept log_records) log_records
redo_exact_example = redo_exact log_records

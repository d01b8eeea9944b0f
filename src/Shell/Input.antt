-- ===== src/Shell/Input.antt =====
-- src/main.cpp: the words of a line, the loop over the lines, and the whole of `main`. `>>` on a
-- stream skips white space and takes what stands before the next; on an int it takes a sign and
-- digits, and stops at the limits of 32 bits.
use transaction_manager.Shared.{
  ℕ, zero, suc, ◌-◌, ◌^◌, Bool, true, false, ◌||◌, Option, none, some, List, [], ◌∷◌, ◌++◌, Bytes,
  length, ltb, if◌then◌else◌, Result, ok, raise,
}
use transaction_manager.Shared.Text.{
  codes, str_eq, pieces, ℤ, pos, negsuc, is_space, read_digits, read_sign,
}
use transaction_manager.Storage.DataStore.{clear}
use transaction_manager.Transaction.TransactionManager.{destroy_manager}
use transaction_manager.Recovery.LogManager.{LogManager, newline, flush_logs, destroy}
use transaction_manager.Shell.State.{Shell, Command, Clock, help, start}
use transaction_manager.Shell.Commands.{say}
use transaction_manager.Shell.Dispatch.{execute_line}

-- The words that successive `>>` read; `part` is what has been read of the current one.
unfoldable pub words : Bytes → Bytes → List Bytes
words [] [] = []
words (a ∷ part) [] = (a ∷ part) ∷ []
words [] (c ∷ s) =
    let skipped = words [] s in
    let begun = words (c ∷ []) s in if is_space c then skipped else begun
words (a ∷ part) (c ∷ s) =
    let ended = (a ∷ part) ∷ words [] s in
    let longer = words ((a ∷ part) ++ c ∷ []) s in if is_space c then ended else longer

-- A `>>` that finds no word leaves its argument empty.
unfoldable pub word : ℕ → List Bytes → Bytes
word n [] = []
word zero (w ∷ ws) = w
word (suc n) (w ∷ ws) = word n ws

-- An int of 32 bits: a number beyond the limits becomes the limit.
abbrev pub clamp : Bool → ℕ → ℤ
clamp false n = pos (if ltb n (2 ^ 31) then n else 2 ^ 31 - 1)
clamp true zero = pos 0
clamp true (suc n) = negsuc (if ltb n (2 ^ 31) then n else 2 ^ 31 - 1)

-- `>> cmd.value` on a word; without a digit, and without a word, the value is 0.
unfoldable pub extract_int : Bytes → ℤ
extract_int s = let (minus, digits) = read_sign s in clamp minus (read_digits 0 digits)

unfoldable pub parse_line : Bytes → Command
parse_line line =
    let ws = words [] line in
    let op = word 0 ws in
    let only_op : Command = record { op = op; txn_label = []; resource_name = []; value = pos 0 } in
    if str_eq op (codes "BEGIN") || str_eq op (codes "COMMIT") || str_eq op (codes "ABORT")
    then record only_op { txn_label = word 1 ws }
    else if str_eq op (codes "READ")
    then record only_op { txn_label = word 1 ws; resource_name = word 2 ws }
    else if str_eq op (codes "WRITE")
    then record only_op {
      txn_label = word 1 ws;
      resource_name = word 2 ws;
      value = extract_int (word 3 ws);
    }
    else if str_eq op (codes "SHOW")
    then record only_op { resource_name = word 1 ws }
    else only_op

-- What a line does to the loop: `none` is `break`, which EXIT asks for.
unfoldable pub handle_line : Clock → Bytes → Shell → Option (Option (Result Shell))
handle_line clock [] sh = some (some (ok sh))
handle_line clock (c ∷ s) sh =
    let cmd = parse_line (c ∷ s) in
    if str_eq cmd.op (codes "HELP")
    then some (some (ok (say help sh)))
    else if str_eq cmd.op (codes "EXIT")
    then none
    else some (execute_line clock cmd sh)

-- The loop over the lines, with a clock for each. `none` means that the fuel of `process_pending`
-- ran out.
unfoldable pub run_lines : List (Clock × Bytes) → Shell → Option (Result Shell)
run_lines [] sh = some (ok sh)
run_lines ((clock, line) ∷ rest) sh = elim (handle_line clock line sh) [
  | none ↦ some (ok sh)
  | some none ↦ none
  | some (some (raise e)) ↦ some (raise e)
  | some (some (ok sh')) ↦ run_lines rest sh'
]

-- The lines of the text that `std::getline` reads, each with the clock that `clock` has for it.
unfoldable pub timed : (ℕ → Clock) → ℕ → List Bytes → List (Clock × Bytes)
timed clock n [] = []
timed clock n (line ∷ rest) = (clock n, line) ∷ timed clock (suc n) rest

-- The file is read if it can be opened, and the standard input otherwise.
abbrev pub choose : Option Bytes → Bytes → Bytes
choose none standard = standard
choose (some file) standard = file

-- The end of `main`: the log is flushed, and then the store, the log manager and the transaction
-- manager are destroyed, with the work that their destructors do.
unfoldable pub leave : Clock → Shell → Shell
leave clock sh = record sh {
  tm = destroy_manager clock.system sh.tm;
  log_mgr = destroy (flush_logs sh.log_mgr);
  data_store = clear sh.data_store;
}

abbrev pub left : Clock → Option (Result Shell) → Option (Result Shell)
left clock none = none
left clock (some (raise e)) = some (raise e)
left clock (some (ok sh)) = some (ok (leave clock sh))

-- The time at which `main` ends, after all the lines.
abbrev pub at_end : (ℕ → Clock) → Option Bytes → Bytes → Clock
at_end clock file standard = clock (length (pieces newline [] (choose file standard)))

-- `main` up to the end of its loop, with the log manager that it makes and the layout of the sets of
-- locks.
unfoldable pub run_input :
    (ℕ → Clock) → (ℕ → ℕ) → LogManager → Option Bytes → Bytes → Option (Result Shell)
run_input clock place log_mgr file standard =
    run_lines (timed clock 0 (pieces newline [] (choose file standard)))
      (say help (start place log_mgr))

-- `main` as a whole.
unfoldable pub run_main :
    (ℕ → Clock) → (ℕ → ℕ) → LogManager → Option Bytes → Bytes → Option (Result Shell)
run_main clock place log_mgr file standard =
    left (at_end clock file standard) (run_input clock place log_mgr file standard)

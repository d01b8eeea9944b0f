-- ===== src/Recovery/LogManager.antt =====
-- src/recovery/LogManager.cpp, include/recovery/LogManager.h. The log file is what the disk holds,
-- and the stream keeps what has been written to it and not yet handed on. `can_open n` says whether
-- the n-th attempt to open the file for writing succeeds, and `spill n` how many bytes the stream
-- hands on by itself at its n-th write; the theorems hold for every such environment.
pub mod Contents
use transaction_manager.Shared.{
  ℕ, zero, suc, ◌+◌, Bool, true, false, Option, none, some, List, [], ◌∷◌, ◌++◌, Bytes,
  if◌then◌else◌, Result, ok, raise, ◌>>=◌,
}
use transaction_manager.Shared.Text.{pieces}
use transaction_manager.Recovery.LogRecord.{LogRecord, to_string, from_string}

pub record LogManager : Type 0 where
  pub log_buffer : List LogRecord
  pub disk : Option Bytes
  pub unflushed : Bytes
  pub is_open : Bool
  pub can_open : ℕ → Bool
  pub opened : ℕ
  pub spill : ℕ → ℕ
  pub written : ℕ

abbrev pub newline : ℕ
newline = 10

-- What the file holds; a missing file holds nothing.
abbrev pub on_disk : Option Bytes → Bytes
on_disk none = []
on_disk (some s) = s

-- An attempt to open for appending, which makes a missing file.
unfoldable pub open_append : LogManager → LogManager
open_append m =
    if m.can_open m.opened
    then record m { is_open = true; disk = some (on_disk m.disk); opened = suc m.opened }
    else record m { opened = suc m.opened }

-- An attempt to open for truncation, and the closing that follows it.
unfoldable pub truncate : LogManager → LogManager
truncate m =
    if m.can_open m.opened
    then record m { disk = some []; opened = suc m.opened }
    else record m { opened = suc m.opened }

-- `flush` on an open stream hands everything on.
unfoldable pub hand_on : LogManager → LogManager
hand_on m = record m { disk = some (on_disk m.disk ++ m.unflushed); unflushed = [] }

unfoldable pub flush_logs : LogManager → LogManager
unfolding hand_on
flush_logs m = if m.is_open then hand_on m else m

-- `close` hands everything on too.
unfoldable pub close : LogManager → LogManager
unfolding hand_on
close m = if m.is_open then record (hand_on m) { is_open = false } else m

-- The constructor, on the file that is there.
unfoldable pub create : (ℕ → Bool) → (ℕ → ℕ) → Option Bytes → LogManager
unfolding open_append
create can_open spill disk = open_append (record {
  log_buffer = [];
  disk = disk;
  unflushed = [];
  is_open = false;
  can_open = can_open;
  opened = 0;
  spill = spill;
  written = 0;
})

-- The destructor.
unfoldable pub destroy : LogManager → LogManager
unfolding flush_logs close
destroy m = close (flush_logs m)

abbrev pub take : ℕ → Bytes → Bytes
take zero s = []
take (suc n) [] = []
take (suc n) (c ∷ s) = c ∷ take n s

abbrev pub drop : ℕ → Bytes → Bytes
drop zero s = s
drop (suc n) [] = []
drop (suc n) (c ∷ s) = drop n s

-- `log_file_ << text` on an open stream.
unfoldable pub put : Bytes → LogManager → LogManager
put text m =
    let waiting = m.unflushed ++ text in
    record m {
      disk = some (on_disk m.disk ++ take (m.spill m.written) waiting);
      unflushed = drop (m.spill m.written) waiting;
      written = suc m.written;
    }

unfoldable pub line : LogRecord → Bytes
line r = to_string r ++ newline ∷ []

-- `none` is the null pointer.
unfoldable pub write_log : Option LogRecord → LogManager → LogManager
unfolding open_append put line
write_log none m = m
write_log (some r) m =
    let kept = record m { log_buffer = m.log_buffer ++ r ∷ [] } in
    let ready = if m.is_open then kept else open_append kept in
    if ready.is_open then put (line r) ready else ready

-- What the loop over the lines adds for one of them.
unfoldable pub add_record : Option LogRecord → List LogRecord → List LogRecord
add_record none rs = rs
add_record (some r) rs = r ∷ rs

unfoldable pub read_lines : List Bytes → Result (List LogRecord)
unfolding add_record
read_lines [] = ok []
read_lines ([] ∷ rest) = read_lines rest
read_lines ((c ∷ s) ∷ rest) =
    let later = read_lines rest in from_string (c ∷ s) >>= λ r. later >>= λ rs. ok (add_record r rs)

-- The file is read through a stream of its own, which sees what is on the disk.
unfoldable pub read_logs : LogManager → Result (List LogRecord)
unfolding read_lines
read_logs m = elim m.disk [ none ↦ ok [] | some content ↦ read_lines (pieces newline [] content) ]

unfoldable pub clear_logs : LogManager → LogManager
unfolding close truncate open_append
clear_logs m = open_append (truncate (close (record m { log_buffer = [] })))

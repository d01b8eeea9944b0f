-- ===== src/Recovery/LogManager/Contents.antt =====
-- The log file as a sequence of records: what is written and flushed is read back.
use mathlib.Core.List.{append_assoc, append-nil}
use transaction_manager.Shared.{
  ℕ, zero, suc, Bool, true, false, some, List, [], ◌∷◌, ◌++◌, map, Bytes, ◌==◌, ok, ◌>>=◌, ◌≡◌,
  refl, sym, ap, ◌∙◌, All, All-append, arith,
}
use transaction_manager.Shared.Text.{codes, pieces, print_nat, print_int}
use transaction_manager.Shared.Decimal.{print_nat-IsDigit}
use transaction_manager.Recovery.LogRecord.{
  LogType, LogRecord, begin, log_type_to_string, to_string, from_string,
}
use transaction_manager.Recovery.LogRecord.RoundTrip.{
  Lacks, InRange, pieces_to_delimiter, from_string-to_string, digits-Lacks, print_int-Lacks,
}
use transaction_manager.Recovery.LogManager.{
  LogManager, newline, on_disk, create, destroy, close, hand_on, open_append, flush_logs, take,
  drop, put, line, write_log, read_lines, read_logs, clear_logs, add_record,
}

-- The text of a log of records, one to a line.
unfoldable pub render : List LogRecord → Bytes
render [] = []
render (r ∷ rs) = line r ++ render rs

-- The log is open, and the file and the stream together hold exactly these records.
pub record Holds (rs : List LogRecord) (m : LogManager) : Type 0 where
  pub open_log : m.is_open ≡ true
  pub text : on_disk m.disk ++ m.unflushed ≡ render rs
  pub legal : All InRange rs

render-append : (rs : List LogRecord) (r : LogRecord) → render (rs ++ r ∷ []) ≡ render rs ++ line r
unfolding render
render-append [] r = append-nil (line r)
render-append (x ∷ rs) r =
    ap (λ (s : Bytes). line x ++ s) (render-append rs r)
    ∙ sym (append_assoc (line x) (render rs) (line r))

take-append-drop : (n : ℕ) (s : Bytes) → take n s ++ drop n s ≡ s
take-append-drop zero s = refl
take-append-drop (suc n) [] = refl
take-append-drop (suc n) (c ∷ s) = ap (λ (t : Bytes). c ∷ t) (take-append-drop n s)

put-text :
    (s : Bytes) (m : LogManager)
    → on_disk (put s m).disk ++ (put s m).unflushed ≡ (on_disk m.disk ++ m.unflushed) ++ s
unfolding put
put-text s m =
    let n = m.spill m.written in
    let waiting = m.unflushed ++ s in
    append_assoc (on_disk m.disk) (take n waiting) (drop n waiting)
    ∙ ap (λ (t : Bytes). on_disk m.disk ++ t) (take-append-drop n waiting)
    ∙ sym (append_assoc (on_disk m.disk) m.unflushed s)

-- Writing a record appends it to the log, whatever part of the text the stream hands on by itself.
pub write_log-Holds :
    (rs : List LogRecord) (r : LogRecord) (m : LogManager)
    → InRange r
    → Holds rs m
    → Holds (rs ++ r ∷ []) (write_log (some r) m)
unfolding write_log
write_log-Holds rs r m legal h =
    let kept : LogManager = record m { log_buffer = m.log_buffer ++ r ∷ [] } in
    rw h.open_log (record {
      open_log = refl;
      text =
          put-text (line r) kept
          ∙ ap (λ (s : Bytes). s ++ line r) h.text
          ∙ sym (render-append rs r);
      legal = All-append InRange rs (r ∷ []) h.legal (legal, tt);
    })

flush-disk :
    (rs : List LogRecord) (m : LogManager) → Holds rs m → (flush_logs m).disk ≡ some (render rs)
unfolding flush_logs
flush-disk rs m h = rw h.open_log (ap some h.text)

pub flush_logs-Holds : (rs : List LogRecord) (m : LogManager) → Holds rs m → Holds rs (flush_logs m)
unfolding flush_logs
flush_logs-Holds rs m h =
    rw h.open_log (record { open_log = refl; text = append-nil _ ∙ h.text; legal = h.legal })

log_type-Lacks-newline : (t : LogType) → Lacks newline (log_type_to_string t)
unfolding log_type_to_string
log_type-Lacks-newline begin = ground arith
log_type-Lacks-newline t = ground arith

abbrev LacksNewline : Bytes → Type 0
LacksNewline = Lacks newline

to_string-Lacks-newline : (r : LogRecord) → Lacks newline (to_string r)
unfolding to_string
to_string-Lacks-newline r =
    let P = λ (x : ℕ). (x == newline) ≡ false in
    All-append P (codes "timestamp=") _ (ground arith) (
      All-append P (print_int r.timestamp) _ (print_int-Lacks newline r.timestamp refl refl) (
        All-append P (codes ",txn=") _ (ground arith) (
          All-append P (print_nat r.transaction_id) _
            (digits-Lacks newline (print_nat r.transaction_id) refl (print_nat-IsDigit _))
            (All-append P (codes ",type=") (log_type_to_string r.log_type) (ground arith)
              (log_type-Lacks-newline r.log_type)))))

pieces-render : (rs : List LogRecord) → pieces newline [] (render rs) ≡ map to_string rs
unfolding render line
pieces-render [] = unfold pieces in refl
pieces-render (r ∷ rs) =
    ap (pieces newline []) (append_assoc (to_string r) (newline ∷ []) (render rs))
    ∙ pieces_to_delimiter newline [] (to_string r) (render rs) (to_string-Lacks-newline r)
    ∙ ap (λ (l : List Bytes). to_string r ∷ l) (pieces-render rs)

-- A printed record is not the empty line, which the loop skips.
read_lines_step :
    (r : LogRecord) (rest : List Bytes)
    → read_lines (to_string r ∷ rest)
      ≡ (from_string (to_string r) >>= λ o. read_lines rest >>= λ rs. ok (add_record o rs))
unfolding to_string read_lines
read_lines_step r rest = refl

read_lines-to_string :
    (rs : List LogRecord) → All InRange rs → read_lines (map to_string rs) ≡ ok rs
read_lines-to_string [] h = unfold read_lines in refl
read_lines-to_string (r ∷ rs) h =
    rw
      (
        read_lines_step r (map to_string rs),
        from_string-to_string r h.0,
        read_lines-to_string rs h.1,
      )
      (unfold add_record in refl)

-- After a flush, `readLogs` returns exactly the records of the log, in order, without an exception.
pub read_logs-flush_logs :
    (rs : List LogRecord) (m : LogManager) → Holds rs m → read_logs (flush_logs m) ≡ ok rs
unfolding read_logs
read_logs-flush_logs rs m h =
    rw (flush-disk rs m h, pieces-render rs) (read_lines-to_string rs h.legal)

destroy-disk :
    (rs : List LogRecord) (m : LogManager) → Holds rs m → (destroy m).disk ≡ some (render rs)
unfolding destroy close hand_on flush_logs
destroy-disk rs m h = rw h.open_log (ap some (append-nil _ ∙ h.text))

-- A log manager that is made on the file of one that has been destroyed holds the same records.
pub create-destroy :
    (can_open : ℕ → Bool) (spill : ℕ → ℕ) (rs : List LogRecord) (m : LogManager)
    → can_open 0 ≡ true
    → Holds rs m
    → Holds rs (create can_open spill (destroy m).disk)
      × (read_logs (create can_open spill (destroy m).disk) ≡ ok rs)
unfolding create open_append read_logs
create-destroy can_open spill rs m opens h =
    rw (destroy-disk rs m h, opens)
      (
        record { open_log = refl; text = append-nil (render rs); legal = h.legal },
        rw (pieces-render rs) (read_lines-to_string rs h.legal),
      )

-- Clearing leaves an open and empty log, if the file can be opened twice and a closed stream has
-- nothing left to hand on.
pub clear_logs-Holds :
    (m : LogManager)
    → m.can_open m.opened ≡ true
    → m.can_open (suc m.opened) ≡ true
    → (m.is_open ≡ false → m.unflushed ≡ [])
    → Holds [] (clear_logs m) × ((clear_logs m).log_buffer ≡ [])
unfolding clear_logs render
clear_logs-Holds m first second drained =
    (record { open_log = ground arith; text = ground arith; legal = tt }, ground arith)

-- ===== src/Recovery/LogRecord/RoundTrip.antt =====
-- Printing a log record and reading it back.
use mathlib.Core.List.{append_assoc, append-nil}
use transaction_manager.Shared.{
  ℕ, suc, ==_refl, ◌<◌, ◌%◌, true, false, some, List, [], ◌∷◌, ◌++◌, Bytes, ◌==◌, if◌then◌else◌, ok,
  ◌≡◌, refl, sym, ap, ◌∙◌, All, All-append, arith,
}
use transaction_manager.Shared.Text.{
  codes, str_eq, pieces, cut, print_nat, print_int, ℤ, pos, negsuc, is_digit,
}
use transaction_manager.Shared.Decimal.{
  IsDigit, print_nat-IsDigit, stoul-print_nat, stoll-print_int, FitsInt64,
}
use transaction_manager.Constants.{u32_mod}
use transaction_manager.Recovery.LogRecord.{
  LogType, LogRecord, begin, log_type_to_string, string_to_log_type, to_string, no_fields,
  read_field, read_segment, read_segments, from_string, Fields,
}

-- The character stands nowhere in the text.
abbrev pub Lacks : ℕ → Bytes → Type 0
Lacks c = All (λ x. (x == c) ≡ false)

pieces_step :
    (d : ℕ) (part : Bytes) (c : ℕ) (s : Bytes)
    → pieces d part (c ∷ s) ≡ (if c == d then part ∷ pieces d [] s else pieces d (part ++ c ∷ []) s)
unfolding pieces
pieces_step d [] c s = refl
pieces_step d (p ∷ part) c s = refl

-- A delimiter ends the piece that is being read.
pub pieces_to_delimiter :
    (d : ℕ) (part s rest : Bytes)
    → Lacks d s
    → pieces d part (s ++ (d ∷ rest)) ≡ (part ++ s) ∷ pieces d [] rest
pieces_to_delimiter d part [] rest h = rw (pieces_step d part d rest, ==_refl d, append-nil part)
pieces_to_delimiter d part (c ∷ s) rest h =
    rw (pieces_step d part c (s ++ (d ∷ rest)), h.0)
      (pieces_to_delimiter d (part ++ c ∷ []) s rest h.1
        ∙ ap (λ (x : Bytes). x ∷ pieces d [] rest) (append_assoc part (c ∷ []) s))

pieces_to_end : (d : ℕ) (part s : Bytes) → Lacks d s → pieces d part s ≡ pieces d (part ++ s) []
pieces_to_end d part [] h = rw (append-nil part)
pieces_to_end d part (c ∷ s) h =
    rw (pieces_step d part c s, h.0)
      (pieces_to_end d (part ++ c ∷ []) s h.1
        ∙ ap (λ (x : Bytes). pieces d x []) (append_assoc part (c ∷ []) s))

pub digits-Lacks : (c : ℕ) (s : Bytes) → is_digit c ≡ false → All IsDigit s → Lacks c s
digits-Lacks c [] h a = tt
digits-Lacks c (x ∷ s) h a = (ground arith, digits-Lacks c s h a.1)

pub print_int-Lacks :
    (c : ℕ) (i : ℤ) → is_digit c ≡ false → (b'-' == c) ≡ false → Lacks c (print_int i)
unfolding print_int
print_int-Lacks c (pos n) h m = digits-Lacks c (print_nat n) h (print_nat-IsDigit n)
print_int-Lacks c (negsuc n) h m =
    (m, digits-Lacks c (print_nat (suc n)) h (print_nat-IsDigit (suc n)))

log_type-Lacks_comma : (t : LogType) → Lacks b',' (log_type_to_string t)
unfolding log_type_to_string
log_type-Lacks_comma begin = ground arith
log_type-Lacks_comma t = ground arith

string_to_log_type-log_type_to_string :
    (t : LogType) → string_to_log_type (log_type_to_string t) ≡ some t
unfolding string_to_log_type log_type_to_string str_eq
string_to_log_type-log_type_to_string begin = refl
string_to_log_type-log_type_to_string t = refl

-- What the constructors can hold: a time_t and a uint32_t.
pub record InRange (r : LogRecord) : Type 0 where
  pub time : FitsInt64 r.timestamp
  pub id : r.transaction_id < u32_mod

segments : LogRecord → List Bytes
segments r =
    (codes "timestamp=" ++ print_int r.timestamp)
    ∷ (codes "txn=" ++ print_nat r.transaction_id)
    ∷ (codes "type=" ++ log_type_to_string r.log_type)
    ∷ []

type_segment :
    (r : LogRecord)
    → pieces b',' [] (codes "type=" ++ log_type_to_string r.log_type)
      ≡ (codes "type=" ++ log_type_to_string r.log_type) ∷ []
type_segment r =
    pieces_to_end b',' [] (codes "type=" ++ log_type_to_string r.log_type) (
      All-append (λ x. (x == b',') ≡ false) (codes "type=") (log_type_to_string r.log_type)
        (ground arith) (log_type-Lacks_comma r.log_type))
    ∙ (unfold pieces in refl)

txn_segments :
    (r : LogRecord)
    → let rest = codes "type=" ++ log_type_to_string r.log_type in
      pieces b',' [] (codes "txn=" ++ (print_nat r.transaction_id ++ (b',' ∷ rest)))
      ≡ (codes "txn=" ++ print_nat r.transaction_id) ∷ rest ∷ []
txn_segments r =
    let rest = codes "type=" ++ log_type_to_string r.log_type in
    let head = codes "txn=" ++ print_nat r.transaction_id in
    ap (pieces b',' [])
      (sym (append_assoc (codes "txn=") (print_nat r.transaction_id) (b',' ∷ rest)))
    ∙ pieces_to_delimiter b',' [] head rest (
        All-append (λ x. (x == b',') ≡ false) (codes "txn=") (print_nat r.transaction_id)
          (ground arith)
          (digits-Lacks b',' (print_nat r.transaction_id) refl (print_nat-IsDigit _)))
    ∙ ap (λ (l : List Bytes). head ∷ l) (type_segment r)

segments-to_string : (r : LogRecord) → pieces b',' [] (to_string r) ≡ segments r
unfolding to_string segments
segments-to_string r =
    let rest =
      codes "txn="
      ++ (print_nat r.transaction_id ++ (codes ",type=" ++ log_type_to_string r.log_type)) in
    let head = codes "timestamp=" ++ print_int r.timestamp in
    ap (pieces b',' [])
      (sym (append_assoc (codes "timestamp=") (print_int r.timestamp) (b',' ∷ rest)))
    ∙ pieces_to_delimiter b',' [] head rest (
        All-append (λ x. (x == b',') ≡ false) (codes "timestamp=") (print_int r.timestamp)
          (ground arith) (print_int-Lacks b',' r.timestamp refl refl))
    ∙ ap (λ (l : List Bytes). head ∷ l) (txn_segments r)

read_timestamp :
    (r : LogRecord) (f : Fields)
    → InRange r
    → read_segment (codes "timestamp=" ++ print_int r.timestamp) f
      ≡ ok (record f { timestamp = r.timestamp; has_timestamp = true })
unfolding read_segment read_field cut str_eq
read_timestamp r f h = rw (stoll-print_int r.timestamp h.time)

read_txn :
    (r : LogRecord) (f : Fields)
    → InRange r
    → read_segment (codes "txn=" ++ print_nat r.transaction_id) f
      ≡ ok (record f { txn_id = r.transaction_id; has_txn = true })
unfolding read_segment read_field cut str_eq
read_txn r f h =
    let same : r.transaction_id % u32_mod ≡ r.transaction_id = omega (arith, h.id) in
    rw (stoul-print_nat r.transaction_id (omega (arith, h.id)), same)

read_type :
    (r : LogRecord) (f : Fields)
    → read_segment (codes "type=" ++ log_type_to_string r.log_type) f
      ≡ ok (record f { log_type = r.log_type; has_type = true })
unfolding read_segment read_field cut str_eq
read_type r f = rw (string_to_log_type-log_type_to_string r.log_type)

-- A record that is printed and read back is the record.
pub from_string-to_string : (r : LogRecord) → InRange r → from_string (to_string r) ≡ ok (some r)
unfolding from_string read_segments segments no_fields
from_string-to_string r h =
    rw (segments-to_string r, read_timestamp r no_fields h)
      (rw (read_txn r _ h) (rw (read_type r _) refl))

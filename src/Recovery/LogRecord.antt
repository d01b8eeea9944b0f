-- ===== src/Recovery/LogRecord.antt =====
-- src/recovery/LogRecord.cpp, include/recovery/LogRecord.h. time_t is a signed integer of 64 bits;
-- the first constructor reads the clock, whose value is an argument here.
pub mod RoundTrip
use transaction_manager.Shared.{
  ℕ, ◌%◌, Bool, true, false, not, ◌&&◌, ◌||◌, Option, none, some, List, [], ◌∷◌, ◌++◌, Bytes, ◌==◌,
  if◌then◌else◌, Result, ok, raise, ◌>>=◌,
}
use transaction_manager.Shared.Text.{
  codes, str_eq, pieces, cut, print_nat, print_int, ℤ, pos, stoll, stoul,
}
use transaction_manager.Constants.{u32_mod}

pub data LogType : Type 0 where
  begin insert update delete commit abort checkpoint : LogType

pub record LogRecord : Type 0 where
  pub transaction_id : ℕ
  pub log_type : LogType
  pub timestamp : ℤ

unfoldable pub log_type_to_string : LogType → Bytes
log_type_to_string begin = codes "BEGIN"
log_type_to_string insert = codes "INSERT"
log_type_to_string update = codes "UPDATE"
log_type_to_string delete = codes "DELETE"
log_type_to_string commit = codes "COMMIT"
log_type_to_string abort = codes "ABORT"
log_type_to_string checkpoint = codes "CHECKPOINT"

-- `none` where the source returns false and leaves its argument alone.
unfoldable pub string_to_log_type : Bytes → Option LogType
string_to_log_type value =
    if str_eq value (codes "BEGIN")
    then some begin
    else if str_eq value (codes "INSERT")
    then some insert
    else if str_eq value (codes "UPDATE")
    then some update
    else if str_eq value (codes "DELETE")
    then some delete
    else if str_eq value (codes "COMMIT")
    then some commit
    else if str_eq value (codes "ABORT")
    then some abort
    else if str_eq value (codes "CHECKPOINT")
    then some checkpoint
    else none

unfoldable pub to_string : LogRecord → Bytes
to_string r =
    codes "timestamp="
    ++ (print_int r.timestamp
        ++ (codes ",txn="
            ++ (print_nat r.transaction_id ++ (codes ",type=" ++ log_type_to_string r.log_type))))

-- The local variables of `fromString`.
pub record Fields : Type 0 where
  pub timestamp : ℤ
  pub txn_id : ℕ
  pub log_type : LogType
  pub has_timestamp : Bool
  pub has_txn : Bool
  pub has_type : Bool

unfoldable pub no_fields : Fields
no_fields = record {
  timestamp = pos 0;
  txn_id = 0;
  log_type = begin;
  has_timestamp = false;
  has_txn = false;
  has_type = false;
}

set_type : Option LogType → Fields → Fields
set_type none f = record f { has_type = false }
set_type (some t) f = record f { log_type = t; has_type = true }

-- The body of the loop, once the segment is cut at its first '='.
unfoldable pub read_field : Bytes → Bytes → Fields → Result Fields
unfolding set_type
read_field key value f =
    if str_eq key (codes "timestamp")
    then (stoll value >>= λ t. ok (record f { timestamp = t; has_timestamp = true }))
    else if str_eq key (codes "txn")
    then (stoul value >>= λ n. ok (record f { txn_id = n % u32_mod; has_txn = true }))
    else if str_eq key (codes "type")
    then ok (set_type (string_to_log_type value) f)
    else ok f

unfoldable pub read_segment : Bytes → Fields → Result Fields
read_segment segment f = elim (cut b'=' segment) [
  | none ↦ ok f
  | some (key, value) ↦ read_field key value f
]

unfoldable pub read_segments : List Bytes → Fields → Result Fields
read_segments [] f = ok f
read_segments (s ∷ rest) f = read_segment s f >>= read_segments rest

-- `ok none` is the null pointer.
unfoldable pub from_string : Bytes → Result (Option LogRecord)
from_string serialized = read_segments (pieces b',' [] serialized) no_fields >>= λ f.
    if not f.has_timestamp || not f.has_txn || not f.has_type
    then ok none
    else ok (
        some (record { transaction_id = f.txn_id; log_type = f.log_type; timestamp = f.timestamp }))

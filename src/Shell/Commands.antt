-- ===== src/Shell/Commands.antt =====
-- src/main.cpp: `executeCommand`, `processPending` and the commands.
use transaction_manager.Shared.{
  ℕ, zero, suc, ◌^◌, Bool, true, false, ◌||◌, Option, none, some, List, [], ◌∷◌, ◌++◌, length,
  Bytes, ltb, if◌then◌else◌, Result, ok, raise, out_of_range, ◌>>=◌,
}
use transaction_manager.Shared.OrderedMap
use transaction_manager.Shared.OrderedSet
use transaction_manager.Shared.Text.{codes, str_eq, print_int, stoll, ℤ, pos, negsuc}
use transaction_manager.Enums.{LockType, shared, exclusive}
use transaction_manager.Storage.DataStore.{get_record, update_record}
use transaction_manager.Transaction.TransactionManager.{is_transaction_active}
use transaction_manager.Concurrency.LockManager.State.{at, has_lock}
use transaction_manager.Concurrency.LockManager.Request.{request_lock}
use transaction_manager.Recovery.LogRecord.{LogType, update}
use transaction_manager.Recovery.LogManager.{write_log}
use transaction_manager.Shell.State.{
  Shell, Command, Clock, Event, waiting_for, reads, writes, resumes, lookup, ensure_resource,
}

-- std::stoi: what std::stoll reads, in an int of 32 bits.
abbrev pub narrow : ℤ → Result ℤ
narrow (pos n) = if ltb n (2 ^ 31) then ok (pos n) else raise out_of_range
narrow (negsuc n) = if ltb n (2 ^ 31) then ok (negsuc n) else raise out_of_range

unfoldable pub bytes_to_int : Bytes → Result ℤ
bytes_to_int [] = ok (pos 0)
bytes_to_int (c ∷ s) = stoll (c ∷ s) >>= narrow

unfoldable pub say : Event → Shell → Shell
say e sh = record sh { output = sh.output ++ e ∷ [] }

unfoldable pub hold : ℕ → ℕ → Shell → Shell
hold txn id sh = record sh {
  txn_held_resources =
      OrderedMap.insert txn (OrderedSet.insert id (at txn sh.txn_held_resources))
        sh.txn_held_resources;
}

unfoldable pub log : Clock → ℕ → LogType → Shell → Shell
log clock txn t sh = record sh {
  log_mgr =
      write_log
        (some (record { transaction_id = txn; log_type = t; timestamp = clock.seconds txn }))
        sh.log_mgr;
}

unfoldable pub current_value : ℕ → Shell → Result ℤ
current_value id sh = elim (get_record id sh.data_store) [
  | none ↦ ok (pos 0)
  | some r ↦ bytes_to_int r.payload
]

-- A request that is not granted is announced, unless the command was pending already.
unfoldable pub refused : Bool → Command → Shell → Shell
refused from_pending cmd sh =
    if from_pending then sh else say (waiting_for cmd.txn_label cmd.resource_name) sh

unfoldable pub read_granted : Command → ℕ → ℕ → Shell → Result (Bool × Shell)
read_granted cmd txn id sh = current_value id sh >>= λ v.
    ok (true, say (reads cmd.txn_label cmd.resource_name v) (hold txn id sh))

unfoldable pub write_granted : Clock → Command → ℕ → ℕ → Shell → Result (Bool × Shell)
write_granted clock cmd txn id sh =
    let (result, data_store') =
      update_record id (print_int cmd.value) (clock.system id) sh.data_store in
    result >>= λ _. ok (
      true,
      say (writes cmd.txn_label cmd.resource_name cmd.value)
          (log clock txn update (record (hold txn id sh) { data_store = data_store' })),
    )

-- The request for the lock, and what follows it.
unfoldable pub access :
    Clock
    → Command
    → Bool
    → ℕ
    → LockType
    → (ℕ → Shell → Result (Bool × Shell))
    → Shell
    → Result (Bool × Shell)
access clock cmd from_pending txn t granted sh =
    ensure_resource clock cmd.resource_name sh >>= λ (id, sh').
    let (answer, lock_mgr') = request_lock txn id t sh'.lock_mgr in
    let asked : Shell = record sh' { lock_mgr = lock_mgr' } in
    if answer then granted id asked else ok (false, refused from_pending cmd asked)

-- The id of the transaction with the label, if it is active.
unfoldable pub active_txn : Bytes → Shell → Option ℕ
active_txn label sh = elim (lookup label sh.txn_ids) [
  | none ↦ none
  | some txn ↦ if is_transaction_active txn sh.tm then some txn else none
]

unfoldable pub execute_command : Clock → Command → Bool → Shell → Result (Bool × Shell)
execute_command clock cmd from_pending sh = elim (active_txn cmd.txn_label sh) [
  | none ↦ ok (false, sh)
  | some txn ↦
      if str_eq cmd.op (codes "READ")
      then access clock cmd from_pending txn shared (read_granted cmd txn) sh
      else if str_eq cmd.op (codes "WRITE")
      then access clock cmd from_pending txn exclusive (write_granted clock cmd txn) sh
      else ok (false, sh)
]

unfoldable pub has_pending_for_txn : Bytes → List Command → Bool
has_pending_for_txn label [] = false
has_pending_for_txn label (c ∷ cs) = str_eq c.txn_label label || has_pending_for_txn label cs

unfoldable pub is_listed : Bytes → List Bytes → Bool
is_listed label [] = false
is_listed label (l ∷ ls) = str_eq l label || is_listed label ls

-- The announcement of a command whose lock has been granted in the queue.
unfoldable pub announce : Clock → Command → ℕ → List Bytes → Shell → Result (List Bytes × Shell)
announce clock cmd txn resumed sh =
    if is_listed cmd.txn_label resumed || str_eq cmd.resource_name []
    then ok (resumed, sh)
    else (ensure_resource clock cmd.resource_name sh >>= λ (id, sh').
        if has_lock txn id sh'.lock_mgr
        then ok (cmd.txn_label ∷ resumed, say (resumes cmd.txn_label) sh')
        else ok (resumed, sh'))

-- The commands that stay pending, whether one was executed, the labels announced, the state.
abbrev pub Swept : Type 0
Swept = List Command × Bool × List Bytes × Shell

abbrev pub keep : Command → Swept → Swept
keep cmd (kept, progress, resumed, sh) = (cmd ∷ kept, progress, resumed, sh)

-- The `for` loop of `processPending`.
unfoldable pub sweep : Clock → List Command → Bool → List Bytes → Shell → Result Swept
sweep clock [] progress resumed sh = ok ([], progress, resumed, sh)
sweep clock (cmd ∷ rest) progress resumed sh = elim (active_txn cmd.txn_label sh) [
  | none ↦ sweep clock rest progress resumed sh
  | some txn ↦ announce clock cmd txn resumed sh >>= λ (resumed', sh').
      execute_command clock cmd true sh' >>= λ (executed, sh''). elim executed [
        | true ↦ sweep clock rest true resumed' sh''
        | false ↦ sweep clock rest progress resumed' sh'' >>= λ s. ok (keep cmd s)
      ]
]

-- The `while` loop; nothing is returned when the fuel runs out.
unfoldable pub rounds : ℕ → Clock → List Bytes → Shell → Option (Result Shell)
rounds zero clock resumed sh = none
rounds (suc fuel) clock resumed sh = elim (sweep clock sh.pending false resumed sh) [
  | raise e ↦ some (raise e)
  | ok (kept, progress, resumed', sh') ↦ elim progress [
    | true ↦ rounds fuel clock resumed' (record sh' { pending = kept })
    | false ↦ some (ok (record sh' { pending = kept }))
  ]
]

-- Each round but the last executes a command and takes it off the list.
unfoldable pub process_pending : Clock → Shell → Option (Result Shell)
process_pending clock sh = rounds (suc (length sh.pending)) clock [] sh

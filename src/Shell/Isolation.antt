-- ===== src/Shell/Isolation.antt =====
-- Records, labels and covering locks: what isolation rests on.
pub mod Run
use transaction_manager.Shared.{
  ℕ, suc, ◌+◌, ◌<◌, ◌==◌, true, false, none, some, List, [], ◌∷◌, Bytes, length, Result, ok, raise,
  ◌≡◌, ◌⊎◌, refl, ap, sym, subst, ◌∙◌, inl, inr, Bool-cases, Option-cases, ==_refl, ==_iff, All,
  arith, is_some,
}
use transaction_manager.Shared.OrderedMap.{find, find-insert}
use transaction_manager.Shared.Text.{str_eq}
use transaction_manager.Constants.{u32_mod}
use transaction_manager.Enums.{exclusive}
use transaction_manager.Storage.Record.{Record, set_data}
use transaction_manager.Storage.DataStore.{
  DataStore, get_record, insert_record, update_record, write_back,
}
use transaction_manager.Concurrency.LockManager.State.{at, is_complete}
use transaction_manager.Concurrency.LockManager.Answers.{covers}
use transaction_manager.Concurrency.LockManager.Sole.{sole, IsKept, step-IsKept}
use transaction_manager.Concurrency.LockManager.Ends.{is_complete-request, is_complete_complete}
use transaction_manager.Transaction.TransactionManager
use transaction_manager.Transaction.Transaction
use transaction_manager.Transaction.TransactionManager.{
  TransactionManager, begin_transaction, commit_transaction, abort_transaction, get_transaction,
  get_active_transaction_ids, abort_all_transactions,
}
use transaction_manager.Transaction.TransactionManager.Invariant.{next-abort, next-abort_each}
use transaction_manager.Transaction.TransactionManager.AbortAll.{is_ended}
use transaction_manager.Recovery.LogRecord.{LogType, LogRecord, commit, abort}
use transaction_manager.Recovery.LogManager.{LogManager}
use transaction_manager.Recovery.RecoveryManager.{RecoveryManager}
use transaction_manager.Shell.State.{Shell, Command, Clock, Table, lookup, store, with_resource}
use transaction_manager.Shell.Commands.{say, log, active_txn}
use transaction_manager.Shell.Dispatch.{begun, ended, after_recovery, recover_command}
use transaction_manager.Shell.Input.{parse_line, run_lines}
use transaction_manager.Shell.Rules.{Returns, Fits, KeepsResources}
use transaction_manager.Shell.AccessRules.{FitsCommand, KeepsAccess}
use transaction_manager.Shell.CommandRules.{KeepsCommands}
use transaction_manager.Shell.Program.{parse_line-FitsCommand, run_lines_rule}
use transaction_manager.Shell.Sound.{IsSound, recover-IsSound, active-lookup, commit_next}
use transaction_manager.Shell.Agreement.{is_complete-complete_each}
use transaction_manager.Shell.Consistency.{Agrees, resource_completes}
use transaction_manager.Shell.Consistency.Kept.{IsConsistent, IsConsistent-rules}
use transaction_manager.Shell.Locks.{lock_rules}

pub get_record_inserted :
    (id : ℕ) (r new : Record) (s : DataStore)
    → get_record id s ≡ some r
    → get_record id (insert_record (some new) s).1 ≡ some r
unfolding get_record insert_record
get_record_inserted id r new s e =
    let differs : is_some (find new.record_id s.records) ≡ false → (new.record_id == id) ≡ false =
      λ absent. elim (Bool-cases (new.record_id == id)) [
        | inr ne ↦ ne
        | inl same ↦ absurd (
            ground (
              arith,
              ap (λ k. is_some (find k s.records)) ((==_iff new.record_id id).0 same),
              absent,
              e,
            ))
      ] in
    elim (Bool-cases (is_some (find new.record_id s.records))) [
      | inl h ↦ rw h e
      | inr h ↦ rw h (find-insert id new.record_id new s.records ∙ ground (arith, h, e, differs h))
    ]

pub get_record_updated :
    (id other : ℕ) (payload : Bytes) (now : ℕ) (s : DataStore)
    → (other == id) ≡ false
    → get_record id (update_record other payload now s).1 ≡ get_record id s
unfolding get_record update_record
get_record_updated id other payload now s ne = elim (Option-cases (find other s.records)) [
  | inl e ↦ rw (e, update_record)
  | inr (r, e) ↦ rw (e, update_record) (written (set_data payload now r))
]
  where
    written : (x : Result Record) → get_record id (write_back other x s).1 ≡ get_record id s
    written (ok r) = unfold write_back get_record in (find-insert id other r s.records ∙ rw ne refl)
    written (raise e) = unfold write_back in refl

-- A label that stands for another id than the new one stood for it before.
pub lookup_before :
    (k key : Bytes) (new owner : ℕ) (table : Table)
    → (new == owner) ≡ false
    → lookup k (store key new table) ≡ some owner
    → lookup k table ≡ some owner
unfolding lookup store
lookup_before k key new owner [] ne e = ground (arith, ne, e, ==_refl new)
lookup_before k key new owner ((j, x) ∷ table) ne e =
    ground (arith, e, ne, ==_refl new, lookup_before k key new owner table ne)

-- A set with one exclusive lock covers only its owner.
pub sole-covers : (owner txn : ℕ) → covers txn exclusive (sole owner) ≡ true → owner ≡ txn
unfolding covers
sole-covers owner txn c = (==_iff owner txn).0 (ground (arith, c))

pub aborted_next :
    (clock : Clock) (sh : Shell)
    → (abort_all_transactions clock.system sh.tm).next_transaction_id ≡ sh.tm.next_transaction_id
unfolding abort_all_transactions
aborted_next clock sh = next-abort_each (get_active_transaction_ids sh.tm) clock.system sh.tm

pub older : (a b : ℕ) → a < b → (b == a) ≡ false
older a b h = elim (Bool-cases (b == a)) [
  | inr e ↦ e
  | inl e ↦ let same : b ≡ a = (==_iff b a).0 e in absurd (omega (arith, same, h))
]

-- The command does not name the label.
abbrev pub Spares : Bytes → Command → Type 0
Spares label cmd = str_eq label cmd.txn_label ≡ false

module _ (owner id : ℕ) (label : Bytes) (r : Record) where
  -- Only this label stands for the transaction, and its record is unchanged until it completes.
  pub record Guards (sh : Shell) : Type 0 where
    pub known : (k : Bytes) → lookup k sh.txn_ids ≡ some owner → str_eq label k ≡ true
    pub old : owner < sh.tm.next_transaction_id
    pub unchanged : is_complete owner sh.lock_mgr ≡ false → get_record id sh.data_store ≡ some r

  pub same-Guards :
      (sh sh' : Shell)
      → sh'.txn_ids ≡ sh.txn_ids
      → sh'.tm.next_transaction_id ≡ sh.tm.next_transaction_id
      → (is_complete owner sh'.lock_mgr ≡ false → is_complete owner sh.lock_mgr ≡ false)
      → (is_complete owner sh.lock_mgr ≡ false
          → get_record id sh.data_store ≡ some r
          → get_record id sh'.data_store ≡ some r)
      → Guards sh
      → Guards sh'
  same-Guards sh sh' i t live value g = record {
    known = λ k e. g.known k (ap (lookup k) (sym i) ∙ e);
    old = subst (λ n. owner < n) (sym t) g.old;
    unchanged = λ l. value (live l) (g.unchanged (live l));
  }

  -- A write of another transaction is on another record.
  pub write-elsewhere :
      (cmd : Command) (txn other : ℕ) (sh : Shell)
      → Spares label cmd
      → active_txn cmd.txn_label sh ≡ some txn
      → covers txn exclusive (at other sh.lock_mgr.resource_locks) ≡ true
      → IsKept owner id sh.lock_mgr
      → Guards sh
      → is_complete owner sh.lock_mgr ≡ false
      → (other == id) ≡ false
  write-elsewhere cmd txn other sh spared active covered (inl done) g live =
      absurd (ground (arith, done, live))
  write-elsewhere cmd txn other sh spared active covered (inr s) g live =
      elim (Bool-cases (other == id)) [
        | inr e ↦ e
        | inl e ↦
            let here : covers txn exclusive (sole owner) ≡ true =
              subst (λ ls. covers txn exclusive ls ≡ true) s.alone
                (subst (λ k. covers txn exclusive (at k sh.lock_mgr.resource_locks) ≡ true)
                  ((==_iff other id).0 e) covered) in
            let named : lookup cmd.txn_label sh.txn_ids ≡ some owner =
              (active-lookup cmd.txn_label txn sh active).0
              ∙ ap some (sym (sole-covers owner txn here)) in
            absurd (ground (arith, g.known cmd.txn_label named, spared))
      ]

  pub recover-Guards :
      (clock : Clock) (log_mgr' : LogManager) (m : RecoveryManager) (sh : Shell)
      → Guards sh
      → Guards (after_recovery clock log_mgr' m sh)
  unfolding after_recovery say
  recover-Guards clock log_mgr' m sh g =
      same-Guards sh (after_recovery clock log_mgr' m sh) refl (aborted_next clock sh)
        (λ l. ground (
          arith,
          l,
          is_complete-complete_each owner (get_active_transaction_ids sh.tm) sh.lock_mgr,
        ))
        (λ _ e. e) g

-- ===== src/Shell/Isolation/Run.antt =====
-- Lines that do not name a transaction, and what it has locked exclusively.
use transaction_manager.Shared.{
  ℕ, suc, ◌+◌, ◌<◌, true, false, none, some, List, [], ◌∷◌, Bytes, length, ok, ◌≡◌, ◌⊎◌, refl, sym,
  subst, ◌∙◌, inl, inr, Bool-cases, All, arith,
}
use transaction_manager.Shared.Text.{str_eq}
use transaction_manager.Constants.{u32_mod}
use transaction_manager.Storage.Record.{Record}
use transaction_manager.Storage.DataStore.{get_record}
use transaction_manager.Concurrency.LockManager.State.{at, is_complete}
use transaction_manager.Concurrency.LockManager.Sole.{sole, IsKept, step-IsKept}
use transaction_manager.Concurrency.LockManager.Ends.{is_complete-request, is_complete_complete}
use transaction_manager.Transaction.Transaction
use transaction_manager.Transaction.TransactionManager.{
  TransactionManager, begin_transaction, commit_transaction, abort_transaction, get_transaction,
}
use transaction_manager.Transaction.TransactionManager.Invariant.{next-abort}
use transaction_manager.Transaction.TransactionManager.AbortAll.{is_ended}
use transaction_manager.Recovery.LogRecord.{LogType, LogRecord, commit, abort}
use transaction_manager.Shell.State.{Shell, Command, Clock, lookup, with_resource}
use transaction_manager.Shell.Commands.{say, log}
use transaction_manager.Shell.Dispatch.{begun, ended, after_recovery, recover_command}
use transaction_manager.Shell.Input.{parse_line, run_lines}
use transaction_manager.Shell.Rules.{Returns, Fits, KeepsResources}
use transaction_manager.Shell.AccessRules.{FitsCommand, KeepsAccess}
use transaction_manager.Shell.CommandRules.{KeepsCommands}
use transaction_manager.Shell.Program.{parse_line-FitsCommand, run_lines_rule}
use transaction_manager.Shell.Sound.{IsSound, recover-IsSound, commit_next}
use transaction_manager.Shell.Consistency.{Agrees, resource_completes}
use transaction_manager.Shell.Consistency.Kept.{IsConsistent, IsConsistent-rules}
use transaction_manager.Shell.Locks.{lock_rules}
use transaction_manager.Shell.Isolation.{
  Guards, same-Guards, write-elsewhere, recover-Guards, get_record_inserted, get_record_updated,
  lookup_before, older, Spares,
}

module _ (owner id : ℕ) (label : Bytes) (r : Record) where
  abbrev Calm : Command → Type 0
  Calm cmd = FitsCommand cmd × Spares label cmd

  abbrev Base : ℕ → Shell → Type 0
  Base n sh = IsConsistent n sh × IsKept owner id sh.lock_mgr

  Base-rules : KeepsCommands FitsCommand Base
  Base-rules =
      lock_rules FitsCommand IsConsistent (IsKept owner id) IsConsistent-rules
        (step-IsKept owner id)

  record IsIsolated (n : ℕ) (sh : Shell) : Type 0 where
    base : Base n sh
    others : All Calm sh.pending
    guarded : n + 1 < u32_mod → Guards owner id label r sh

  IsIsolated-resources : (n : ℕ) → KeepsResources (IsIsolated n)
  IsIsolated-resources n = record {
    quiet = λ output held sh p. record {
      base = (Base-rules.accesses n).resources.quiet output held sh p.base;
      others = p.others;
      guarded =
          λ room. same-Guards owner id label r sh _ refl refl (λ l. l) (λ _ e. e) (p.guarded room);
    };
    resource = λ path last_id new sh own_id value p. record {
      base = (Base-rules.accesses n).resources.resource path last_id new sh own_id value p.base;
      others = unfold with_resource in p.others;
      guarded =
          unfold with_resource in
          λ room.
            same-Guards owner id label r sh (with_resource path last_id new sh) refl refl
              (λ l. sym (resource_completes owner path last_id new sh) ∙ l)
              (λ _ e. get_record_inserted id r new sh.data_store e) (p.guarded room);
    };
  }

  Calm-fits : (cmds : List Command) → All Calm cmds → All FitsCommand cmds
  Calm-fits [] h = tt
  Calm-fits (cmd ∷ cmds) h = (h.0.0, Calm-fits cmds h.1)

  IsIsolated-accesses : (n : ℕ) → KeepsAccess Calm (IsIsolated n)
  IsIsolated-accesses n = record {
    resources = IsIsolated-resources n;
    small = λ cmd calm. calm.0;
    readable = λ sh p. (Base-rules.accesses n).readable sh p.base;
    waiting = λ sh p. p.others;
    pend = λ cmds sh calm p. record {
      base = (Base-rules.accesses n).pend cmds sh (Calm-fits cmds calm) p.base;
      others = calm;
      guarded =
          λ room. same-Guards owner id label r sh _ refl refl (λ l. l) (λ _ e. e) (p.guarded room);
    };
    ask = λ name txn k t sh active p. record {
      base = (Base-rules.accesses n).ask name txn k t sh active p.base;
      others = p.others;
      guarded = λ room.
          same-Guards owner id label r sh _ refl refl
            (λ l. sym (is_complete-request owner txn k t sh.lock_mgr) ∙ l) (λ _ e. e)
            (p.guarded room);
    };
    write = λ clock cmd txn k sh fits calm active covered p. record {
      base = (Base-rules.accesses n).write clock cmd txn k sh fits calm.0 active covered p.base;
      others = unfold log in p.others;
      guarded =
          unfold log in
          λ room.
            same-Guards owner id label r sh _ refl refl (λ l. l)
              (λ live e.
                get_record_updated id k _ _ sh.data_store (
                  write-elsewhere owner id label r cmd txn k sh calm.1 active covered p.base.1
                    (p.guarded room) live)
                ∙ e)
              (p.guarded room);
    };
  }

  begun-IsIsolated :
      (n : ℕ) (clock : Clock) (key : Bytes) (sh : Shell)
      → Fits clock
      → lookup key sh.txn_ids ≡ none
      → IsIsolated n sh
      → IsIsolated (suc n) (begun clock key sh)
  begun-IsIsolated n clock key sh fits new p = record {
    base = Base-rules.begins n clock key sh fits new p.base;
    others = unfold begun log begin_transaction Transaction.create in p.others;
    guarded = λ room.
        let g = p.guarded (omega (arith, room)) in
        let a = p.base.0.agrees (omega (arith, room)) in
        let few = p.base.0.few in
        unfold begun log begin_transaction Transaction.create in
        record {
          known = λ k e. g.known k (
              lookup_before k key sh.tm.next_transaction_id owner sh.txn_ids
                (older owner sh.tm.next_transaction_id g.old) e);
          old = omega (arith, g.old, a.counted, few, room);
          unchanged = g.unchanged;
        };
  }

  ended-IsIsolated :
      (n : ℕ) (clock : Clock) (txn : ℕ) (t : LogType) (tm' : TransactionManager) (sh : Shell)
      → tm'.next_transaction_id ≡ sh.tm.next_transaction_id
      → Base n (ended clock txn t tm' sh)
      → IsIsolated n sh
      → IsIsolated n (ended clock txn t tm' sh)
  ended-IsIsolated n clock txn t tm' sh same b p = record {
    base = b;
    others = unfold ended log in p.others;
    guarded =
        unfold ended log in
        λ room.
          same-Guards owner id label r sh (ended clock txn t tm' sh) refl same
            (λ l. ground (arith, l, is_complete_complete owner txn sh.lock_mgr)) (λ _ e. e)
            (p.guarded room);
  }

  recovered-IsIsolated :
      (n : ℕ) (clock : Clock) (sh : Shell)
      → Fits clock
      → IsIsolated n sh
      → Returns (IsIsolated n) (recover_command clock sh)
  recovered-IsIsolated n clock sh fits p =
      let c = p.base.0 in
      let (e, _) = recover-IsSound clock c.log_records sh fits c.sound in
      let b : Returns (Base n) (ok (after_recovery clock _ _ sh)) =
        subst (Returns (Base n)) e (Base-rules.recovers n clock sh fits p.base) in
      rw e (record {
        base = b;
        others = unfold after_recovery say in tt;
        guarded = λ room. recover-Guards owner id label r clock _ _ sh (p.guarded room);
      })

  IsIsolated-rules : KeepsCommands Calm IsIsolated
  IsIsolated-rules = record {
    accesses = IsIsolated-accesses;
    more = λ n sh p. record {
      base = Base-rules.more n sh p.base;
      others = p.others;
      guarded = λ room. p.guarded (omega (arith, room));
    };
    begins = begun-IsIsolated;
    commits = λ n clock key txn sh fits e done p.
        ended-IsIsolated n clock txn commit (commit_transaction txn (clock.system txn) sh.tm).1 sh
          (commit_next txn (clock.system txn) sh.tm)
          (Base-rules.commits n clock key txn sh fits e done p.base) p;
    aborts = λ n clock key txn sh fits e done p.
        ended-IsIsolated n clock txn abort (abort_transaction txn (clock.system txn) sh.tm).1 sh
          (next-abort txn (clock.system txn) sh.tm)
          (Base-rules.aborts n clock key txn sh fits e done p.base) p;
    checkpoints = λ n clock sh fits p. record {
      base = Base-rules.checkpoints n clock sh fits p.base;
      others = p.others;
      guarded =
          λ room. same-Guards owner id label r sh _ refl refl (λ l. l) (λ _ e. e) (p.guarded room);
    };
    recovers = recovered-IsIsolated;
  }

-- No line of the input names the label.
abbrev pub AllSpare : Bytes → List (Clock × Bytes) → Type 0
AllSpare label lines = All (λ (e : Clock × Bytes). Spares label (parse_line e.1)) lines

calm_lines :
    (label : Bytes) (lines : List (Clock × Bytes))
    → AllSpare label lines
    → All
        (λ (e : Clock × Bytes). FitsCommand (parse_line e.1) × Spares label (parse_line e.1))
        lines
calm_lines label [] h = tt
calm_lines label ((clock, line) ∷ lines) h =
    ((parse_line-FitsCommand line, h.0), calm_lines label lines h.1)

calm_commands :
    (label : Bytes) (cmds : List Command)
    → All FitsCommand cmds
    → All (Spares label) cmds
    → All (λ cmd. FitsCommand cmd × Spares label cmd) cmds
calm_commands label [] f h = tt
calm_commands label (cmd ∷ cmds) f h = ((f.0, h.0), calm_commands label cmds f.1 h.1)

-- Isolation over any lines of input that do not name the label of a transaction, from a state in
-- which log, transaction manager and lock manager agree, no pending command names the label, no
-- other label stands for the transaction, and the transaction, which has begun, has the only lock on a
-- resource, an exclusive one. The lines end without an exception, and then the transaction manager
-- says that the transaction has ended, or its lock is still the only one there, and the record of
-- the resource is what it was. The transactions begun before and the lines are together fewer than
-- 2^32 - 1, and the clock stays within 64 bits.
pub run_lines_isolates :
    (lines : List (Clock × Bytes)) (owner id : ℕ) (label : Bytes) (r : Record) (rs : List LogRecord)
    (sh : Shell)
    → All (λ (e : Clock × Bytes). Fits e.0) lines
    → AllSpare label lines
    → All (Spares label) sh.pending
    → IsSound rs sh
    → Agrees rs sh
    → length sh.txn_ids + length lines + 1 < u32_mod
    → ((k : Bytes) → lookup k sh.txn_ids ≡ some owner → str_eq label k ≡ true)
    → owner < sh.tm.next_transaction_id
    → at id sh.lock_mgr.resource_locks ≡ sole owner
    → get_record id sh.data_store ≡ some r
    → (sh' : Shell) × (run_lines lines sh ≡ some (ok sh'))
      × ((is_ended (get_transaction owner sh'.tm) ≡ true)
          ⊎ ((at id sh'.lock_mgr.resource_locks ≡ sole owner)
              × (get_record id sh'.data_store ≡ some r)))
run_lines_isolates lines owner id label r rs sh fits spared waiting sound agrees room known old lock
      value =
    let kept : IsKept owner id sh.lock_mgr = (elim (Bool-cases (is_complete owner sh.lock_mgr)) [
      | inl done ↦ inl done
      | inr live ↦ inr (record { live = live; alone = lock })
    ]) in
    let start : IsIsolated owner id label r (length sh.txn_ids) sh = record {
      base = (
        record { log_records = rs; sound = sound; few = omega arith; agrees = λ _. agrees },
        kept,
      );
      others = calm_commands label sh.pending sound.waiting waiting;
      guarded = λ _. record { known = known; old = old; unchanged = λ _. value };
    } in
    let (sh', e, p) =
      run_lines_rule _ (IsIsolated owner id label r) (IsIsolated-rules owner id label r) lines
        (length sh.txn_ids) sh fits (calm_lines label lines spared) start in
    (
      sh',
      e,
      outcome sh' ((p.base.0.agrees room).completes owner) p.base.1 (p.guarded room).unchanged,
    )
  where
    outcome :
        (sh' : Shell)
        → is_complete owner sh'.lock_mgr ≡ is_ended (get_transaction owner sh'.tm)
        → IsKept owner id sh'.lock_mgr
        → (is_complete owner sh'.lock_mgr ≡ false → get_record id sh'.data_store ≡ some r)
        → (is_ended (get_transaction owner sh'.tm) ≡ true)
          ⊎ ((at id sh'.lock_mgr.resource_locks ≡ sole owner)
              × (get_record id sh'.data_store ≡ some r))
    outcome sh' c (inl done) unchanged = inl (sym c ∙ done)
    outcome sh' c (inr s) unchanged = inr (s.alone, unchanged s.live)

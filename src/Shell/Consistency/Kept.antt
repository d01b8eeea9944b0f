-- ===== src/Shell/Consistency/Kept.antt =====
-- The agreement of log, transaction manager and lock manager, kept by every command.
use transaction_manager.Shared.{
  ℕ, suc, ◌+◌, ◌<◌, ◌≤◌, none, some, List, [], ◌∷◌, ◌++◌, Bytes, length, ◌≡◌, refl, arith,
}
use transaction_manager.Shared.OrderedMap.{find}
use transaction_manager.Shared.OrderedSet.{contains}
use transaction_manager.Constants.{u32_mod}
use transaction_manager.Transaction.TransactionManager
use transaction_manager.Transaction.Transaction
use transaction_manager.Transaction.TransactionManager.{
  TransactionManager, begin_transaction, commit_transaction, abort_transaction,
  abort_all_transactions, get_transaction, get_active_transaction_ids,
}
use transaction_manager.Transaction.TransactionManager.Invariant.{init-IsValid, next-abort}
use transaction_manager.Concurrency.LockManager.State
use transaction_manager.Concurrency.LockManager.State.{LockManager, is_complete}
use transaction_manager.Concurrency.LockManager.Request.{request_lock}
use transaction_manager.Concurrency.LockManager.Ends.{is_complete-request}
use transaction_manager.Recovery.LogRecord.{
  LogType, LogRecord, begin, update, commit, abort, checkpoint,
}
use transaction_manager.Recovery.LogManager.{LogManager, flush_logs}
use transaction_manager.Recovery.LogManager.Contents.{Holds}
use transaction_manager.Recovery.RecoveryManager.Analysis.{with_aborts, commits, left_open}
use transaction_manager.Shell.State.{Shell, Clock, lookup, start, with_resource}
use transaction_manager.Shell.Commands.{log, say}
use transaction_manager.Shell.Dispatch.{begun, ended, after_recovery, recover_command}
use transaction_manager.Shell.Rules.{Returns, Fits, KeepsResources}
use transaction_manager.Shell.AccessRules.{FitsCommand, KeepsAccess}
use transaction_manager.Shell.CommandRules.{KeepsCommands}
use transaction_manager.Shell.Sound.{
  IsSound, entry, known_id, commit_next, resource-IsSound, write-IsSound, begun-IsSound,
  ended-IsSound, checkpoint-IsSound, recover-IsSound, start-IsSound, pend-IsSound, quiet-IsSound,
  ask-IsSound,
}
use transaction_manager.Shell.Agreement.{neutral-Tells}
use transaction_manager.Shell.Consistency.{
  Agrees, same-Agrees, resource_completes, length-store, write-Agrees, begun-Agrees, commit-Agrees,
  abort-Agrees, recover-Agrees,
}

-- A sound state that agrees with its log, after at most `n` lines, each of which begins at most one
-- transaction, so that the ids cannot run out before the lines do.
pub record IsConsistent (n : ℕ) (sh : Shell) : Type 0 where
  pub log_records : List LogRecord
  pub sound : IsSound log_records sh
  pub few : length sh.txn_ids ≤ n
  pub agrees : n + 1 < u32_mod → Agrees log_records sh

IsConsistent-resources : (n : ℕ) → KeepsResources (IsConsistent n)
IsConsistent-resources n = record {
  quiet = λ output held sh p. record {
    log_records = p.log_records;
    sound = quiet-IsSound output held p.log_records sh p.sound;
    few = p.few;
    agrees = λ room. same-Agrees p.log_records sh _ refl refl (λ k. refl) (p.agrees room);
  };
  resource = λ path last_id r sh _ value p. record {
    log_records = p.log_records;
    sound = resource-IsSound path last_id r p.log_records sh value p.sound;
    few = unfold with_resource in p.few;
    agrees =
        unfold with_resource in
        λ room.
          same-Agrees p.log_records sh (with_resource path last_id r sh) refl refl
            (λ k. resource_completes k path last_id r sh) (p.agrees room);
  };
}

IsConsistent-accesses : (n : ℕ) → KeepsAccess FitsCommand (IsConsistent n)
IsConsistent-accesses n = record {
  resources = IsConsistent-resources n;
  small = λ cmd small. small;
  readable = λ sh p. p.sound.values;
  waiting = λ sh p. p.sound.waiting;
  pend = λ cmds sh small p. record {
    log_records = p.log_records;
    sound = pend-IsSound cmds p.log_records sh small p.sound;
    few = p.few;
    agrees = λ room. same-Agrees p.log_records sh _ refl refl (λ k. refl) (p.agrees room);
  };
  ask = λ label txn id t sh _ p. record {
    log_records = p.log_records;
    sound = ask-IsSound (request_lock txn id t sh.lock_mgr).1 p.log_records sh p.sound;
    few = p.few;
    agrees = λ room.
        same-Agrees p.log_records sh _ refl refl (λ k. is_complete-request k txn id t sh.lock_mgr)
          (p.agrees room);
  };
  write = λ clock cmd txn id sh fits small e _ p. record {
    log_records = p.log_records ++ entry clock txn update ∷ [];
    sound =
        write-IsSound clock cmd.txn_label txn id cmd.value p.log_records sh fits small e p.sound;
    few = unfold log in p.few;
    agrees = λ room. write-Agrees clock txn id cmd.value p.log_records sh (p.agrees room);
  };
}

recovered-IsConsistent :
    (n : ℕ) (clock : Clock) (sh : Shell)
    → Fits clock
    → IsConsistent n sh
    → Returns (IsConsistent n) (recover_command clock sh)
recovered-IsConsistent n clock sh fits p =
    let (e, after) = recover-IsSound clock p.log_records sh fits p.sound in
    rw e (record {
      log_records = with_aborts clock.seconds p.log_records;
      sound = after;
      few = unfold after_recovery say in p.few;
      agrees = λ room. recover-Agrees clock _ _ p.log_records sh (p.agrees room);
    })

begun-IsConsistent :
    (n : ℕ) (clock : Clock) (label : Bytes) (sh : Shell)
    → Fits clock
    → lookup label sh.txn_ids ≡ none
    → IsConsistent n sh
    → IsConsistent (suc n) (begun clock label sh)
begun-IsConsistent n clock label sh fits new p =
    let grown = length-store label sh.tm.next_transaction_id sh.txn_ids new in
    record {
      log_records = p.log_records ++ entry clock sh.tm.next_transaction_id begin ∷ [];
      sound = begun-IsSound clock label p.log_records sh fits p.sound;
      few = unfold begun log begin_transaction Transaction.create in omega (arith, p.few, grown);
      agrees = λ room.
          begun-Agrees clock label p.log_records sh new (omega (arith, room, p.few))
            (p.agrees (omega (arith, room)));
    }

-- A transaction that the manager has ended, with the record that says so.
ended-IsConsistent :
    (n : ℕ) (clock : Clock) (label : Bytes) (txn : ℕ) (t : LogType) (tm' : TransactionManager)
    (sh : Shell)
    → Fits clock
    → lookup label sh.txn_ids ≡ some txn
    → tm'.next_transaction_id ≡ sh.tm.next_transaction_id
    → ((rs : List LogRecord)
        → Agrees rs sh
        → Agrees (rs ++ entry clock txn t ∷ []) (ended clock txn t tm' sh))
    → IsConsistent n sh
    → IsConsistent n (ended clock txn t tm' sh)
ended-IsConsistent n clock label txn t tm' sh fits e same after p = record {
  log_records = p.log_records ++ entry clock txn t ∷ [];
  sound =
      ended-IsSound clock txn t tm' p.log_records sh fits
        (known_id label txn p.log_records sh p.sound e) same p.sound;
  few = unfold ended log in p.few;
  agrees = λ room. after p.log_records (p.agrees room);
}

checkpoint-IsConsistent :
    (n : ℕ) (clock : Clock) (sh : Shell)
    → Fits clock
    → IsConsistent n sh
    → IsConsistent n (record sh { log_mgr = flush_logs (log clock 0 checkpoint sh).log_mgr })
checkpoint-IsConsistent n clock sh fits p = record {
  log_records = p.log_records ++ entry clock 0 checkpoint ∷ [];
  sound = checkpoint-IsSound clock p.log_records sh fits p.sound;
  few = p.few;
  agrees = λ room.
      let a = p.agrees room in
      record {
        valid = a.valid;
        counted = a.counted;
        tells = neutral-Tells p.log_records (entry clock 0 checkpoint) sh.tm refl refl a.tells;
        completes = a.completes;
      };
}

pub IsConsistent-rules : KeepsCommands FitsCommand IsConsistent
IsConsistent-rules = record {
  accesses = IsConsistent-accesses;
  more = λ n sh p. record {
    log_records = p.log_records;
    sound = p.sound;
    few = omega (arith, p.few);
    agrees = λ room. p.agrees (omega (arith, room));
  };
  begins = begun-IsConsistent;
  commits = λ n clock label txn sh fits e done.
      ended-IsConsistent n clock label txn commit
        (commit_transaction txn (clock.system txn) sh.tm).1 sh fits e
        (commit_next txn (clock.system txn) sh.tm) (λ rs. commit-Agrees clock txn rs sh done);
  aborts = λ n clock label txn sh fits e done.
      ended-IsConsistent n clock label txn abort (abort_transaction txn (clock.system txn) sh.tm).1
        sh fits e (next-abort txn (clock.system txn) sh.tm)
        (λ rs. abort-Agrees clock txn rs sh done);
  checkpoints = checkpoint-IsConsistent;
  recovers = recovered-IsConsistent;
}

pub start-IsConsistent :
    (place : ℕ → ℕ) (log_mgr : LogManager) → Holds [] log_mgr → IsConsistent 0 (start place log_mgr)
start-IsConsistent place log_mgr h = record {
  log_records = [];
  sound = start-IsSound place log_mgr [] h;
  few = unfold start in omega arith;
  agrees = λ room.
      unfold start TransactionManager.init State.init get_transaction find commits left_open
        is_complete contains in
      record {
        valid = init-IsValid;
        counted = refl;
        tells = record { committed_in = λ k. refl; open_in = λ k. refl };
        completes = λ k. refl;
      };
}

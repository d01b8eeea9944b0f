-- ===== src/Shell/Program.antt =====
-- The loop over the lines and the whole of `main`: what the commands keep holds at the end.
use transaction_manager.Shared.{
  ℕ, zero, suc, Bool, true, false, Option, none, some, List, [], ◌∷◌, Bytes, ◌+◌, length, ◌||◌,
  Result, ok, raise, ◌≡◌, refl, ap, subst, inl, inr, Bool-cases, All, arith,
}
use transaction_manager.Shared.Text.{codes, str_eq, pieces, pos, read_digits, read_sign}
use transaction_manager.Recovery.LogManager.{LogManager, newline}
use transaction_manager.Shell.State.{Shell, Command, Clock, help, start}
use transaction_manager.Shell.Commands.{say}
use transaction_manager.Shell.Input.{
  clamp, extract_int, word, words, parse_line, handle_line, run_lines, timed, choose, leave, left,
  at_end, run_input, run_main,
}
use transaction_manager.Shell.Values.{FitsInt32}
use transaction_manager.Shell.Rules.{Fits, say_rule}
use transaction_manager.Shell.AccessRules.{FitsCommand}
use transaction_manager.Shell.CommandRules.{KeepsCommands, EndsWell, execute_line_rule}

clamp-FitsInt32 : (minus : Bool) (n : ℕ) → FitsInt32 (clamp minus n)
clamp-FitsInt32 false n = ground arith
clamp-FitsInt32 true zero = omega arith
clamp-FitsInt32 true (suc n) = ground arith

pub extract_int-FitsInt32 : (s : Bytes) → FitsInt32 (extract_int s)
unfolding extract_int
extract_int-FitsInt32 s =
    let (minus, digits) = read_sign s in clamp-FitsInt32 minus (read_digits 0 digits)

pub parse_line-FitsCommand : (line : Bytes) → FitsCommand (parse_line line)
unfolding parse_line
parse_line-FitsCommand line =
    let op = word 0 (words [] line) in
    let zero_fits : FitsInt32 (pos 0) = omega arith in
    elim (Bool-cases
      (str_eq op (codes "BEGIN") || str_eq op (codes "COMMIT") || str_eq op (codes "ABORT"))) [
        | inl e ↦ rw e zero_fits
        | inr e ↦ rw e (elim (Bool-cases (str_eq op (codes "READ"))) [
          | inl r ↦ rw r zero_fits
          | inr r ↦ rw r (elim (Bool-cases (str_eq op (codes "WRITE"))) [
            | inl w ↦ rw w (extract_int-FitsInt32 (word 3 (words [] line)))
            | inr w ↦ rw w (elim (Bool-cases (str_eq op (codes "SHOW"))) [
              | inl s ↦ rw s zero_fits
              | inr s ↦ rw s zero_fits
            ])
          ])
        ])
      ]

-- What a line leaves, unless it ends the loop.
abbrev HandledWell : (Shell → Type 0) → Option (Option (Result Shell)) → Type 0
HandledWell P none = Unit
HandledWell P (some x) = EndsWell P x

-- Every command has a value of 32 bits.
pub All-FitsCommand :
    (lines : List (Clock × Bytes)) → All (λ (e : Clock × Bytes). FitsCommand (parse_line e.1)) lines
All-FitsCommand [] = tt
All-FitsCommand ((clock, line) ∷ rest) = (parse_line-FitsCommand line, All-FitsCommand rest)

module _ (C : Command → Type 0) (P : ℕ → Shell → Type 0) (rules : KeepsCommands C P) where
  handle_line_rule :
      (n : ℕ) (clock : Clock) (line : Bytes) (sh : Shell)
      → Fits clock
      → C (parse_line line)
      → P n sh
      → HandledWell (P (suc n)) (handle_line clock line sh)
  unfolding handle_line
  handle_line_rule n clock [] sh fits small p = (sh, refl, rules.more n sh p)
  handle_line_rule n clock (c ∷ s) sh fits small p =
      let cmd = parse_line (c ∷ s) in
      elim (Bool-cases (str_eq cmd.op (codes "HELP"))) [
        | inl e ↦
            rw e (_, refl, rules.more n _ (say_rule (P n) (rules.accesses n).resources help sh p))
        | inr e ↦ rw e (elim (Bool-cases (str_eq cmd.op (codes "EXIT"))) [
          | inl x ↦ rw x tt
          | inr x ↦ rw x (execute_line_rule C P rules n clock fits cmd sh small p)
        ])
      ]

  more_times : (k n : ℕ) (sh : Shell) → P n sh → P (n + k) sh
  more_times zero n sh p = subst (λ i. P i sh) (omega arith) p
  more_times (suc k) n sh p =
      subst (λ i. P i sh) (omega arith) (more_times k (suc n) sh (rules.more n sh p))

  pub run_lines_rule :
      (lines : List (Clock × Bytes)) (n : ℕ) (sh : Shell)
      → All (λ (e : Clock × Bytes). Fits e.0) lines
      → All (λ (e : Clock × Bytes). C (parse_line e.1)) lines
      → P n sh
      → EndsWell (P (n + length lines)) (run_lines lines sh)
  unfolding run_lines
  run_lines_rule [] n sh fits small p = (sh, refl, more_times 0 n sh p)
  run_lines_rule ((clock, line) ∷ rest) n sh fits small p =
      after_line (handle_line clock line sh) (handle_line_rule n clock line sh fits.0 small.0 p)
        (λ sh' p'. run_lines_rule rest (suc n) sh' fits.1 small.1 p')
    where
      all : ℕ
      all = n + suc (length rest)

      after_line :
          (x : Option (Option (Result Shell)))
          → HandledWell (P (suc n)) x
          → ((sh' : Shell)
              → P (suc n) sh'
              → EndsWell (P (suc n + length rest)) (run_lines rest sh'))
          → EndsWell (P all) (elim x [
            | none ↦ some (ok sh)
            | some none ↦ none
            | some (some (raise e)) ↦ some (raise e)
            | some (some (ok sh')) ↦ run_lines rest sh'
          ])
      after_line none h next = (sh, refl, more_times (suc (length rest)) n sh p)
      after_line (some none) (sh', e, p') next = absurd (cc)
      after_line (some (some (raise x))) (sh', e, p') next = absurd (cc)
      after_line (some (some (ok sh''))) (sh', e, p') next =
          let (last, f, q) = next sh'' (subst (P (suc n)) (ground arith) p') in
          (last, f, subst (λ i. P i last) (omega arith) q)

timed-Fits :
    (clock : ℕ → Clock) (n : ℕ) (lines : List Bytes)
    → ((m : ℕ) → Fits (clock m))
    → All (λ (e : Clock × Bytes). Fits e.0) (timed clock n lines)
unfolding timed
timed-Fits clock n [] fits = tt
timed-Fits clock n (line ∷ rest) fits = (fits n, timed-Fits clock (suc n) rest fits)

length-timed :
    (clock : ℕ → Clock) (n : ℕ) (lines : List Bytes) → length (timed clock n lines) ≡ length lines
unfolding timed
length-timed clock n [] = refl
length-timed clock n (line ∷ rest) = ap suc (length-timed clock (suc n) rest)

-- `main` returns from a state that satisfies `P`, if its start does.
pub run_main_rule :
    (P : ℕ → Shell → Type 0) (rules : KeepsCommands FitsCommand P) (clock : ℕ → Clock)
    (place : ℕ → ℕ) (log_mgr : LogManager) (file : Option Bytes) (standard : Bytes)
    → ((m : ℕ) → Fits (clock m))
    → P 0 (start place log_mgr)
    → (sh : Shell) × (run_input clock place log_mgr file standard ≡ some (ok sh))
      × (run_main clock place log_mgr file standard
          ≡ some (ok (leave (at_end clock file standard) sh)))
      × P (length (pieces newline [] (choose file standard))) sh
unfolding run_main run_input
run_main_rule P rules clock place log_mgr file standard fits p =
    let lines = pieces newline [] (choose file standard) in
    let (sh, e, p') =
      run_lines_rule FitsCommand P rules (timed clock 0 lines) 0 (say help (start place log_mgr))
        (timed-Fits clock 0 lines fits) (All-FitsCommand (timed clock 0 lines))
        (say_rule (P 0) (rules.accesses 0).resources help (start place log_mgr) p) in
    (
      sh,
      e,
      ap (left (at_end clock file standard)) e,
      subst (λ i. P i sh) (omega (arith, length-timed clock 0 lines)) p',
    )

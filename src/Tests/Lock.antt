-- ===== src/Tests/Lock.antt =====
-- Runs of two processes on the lock file; the ledger is a number, and an update adds to it.
use looping_agent.Prelude.{ℕ, ◌+◌, ◌≡◌, refl, inr, true, false, none, some, arith}
use looping_agent.StrategyLedger.Lock.{
  LockFile, Shared, outside, opens, writes, writes_unlinked, loads, saves, finds_stale, clears,
  crashes, ticks, Run, done, then_, updates, set_phase, is_inside, is_stale, is_alive,
  is_process_alive, owner_is_alive, read_lock_metadata, positive_pid, time_or,
}
use looping_agent.StrategyLedger.Lock.Owned.{IsPrompt, IsPromptStep}
use looping_agent.StrategyLedger.Lock.Serial.{one_inside, serial_updates, apply_all}

abbrev quiet : Shared ℕ
quiet = record { now = 1000; ledger = 5; lock = none; phase = λ _. outside }

-- The state after a run.
abbrev end_of : {ms : ℕ} {s t : Shared ℕ} → Run ms s t → Shared ℕ
end_of {t = t} run = t

abbrev Ran : Type 0
Ran = (t : Shared ℕ) × Run 120000 quiet t

-- Process 1 crashes with the lock; process 2 clears it and adds 2.
abbrev recovered : Ran
unfolding set_phase is_stale is_alive is_process_alive owner_is_alive read_lock_metadata
    positive_pid time_or
recovered = (
  _,
  then_ (opens 1 refl refl) (
      then_ (writes 1 _ refl refl refl) (
        then_ (crashes 1) (
          then_ (ticks 10) (
            then_ (finds_stale 2 _ refl refl refl) (
              then_ (clears 2 _ refl) (
                then_ (opens 2 refl refl) (
                  then_ (writes 2 _ refl refl refl)
                    (then_ (loads 2 refl) (then_ (saves 2 5 (λ n. n + 2) refl) done))))))))),
)

recovered-IsPrompt : IsPrompt recovered.1
unfolding recovered IsPrompt IsPromptStep read_lock_metadata positive_pid time_or
recovered-IsPrompt =
    (tt, (tt, (tt, (tt, ((refl, omega arith), (inr refl, (tt, (tt, (tt, (tt, tt))))))))))

serial_updates_example : apply_all (updates recovered.1) 5 ≡ recovered.0.ledger
serial_updates_example = serial_updates recovered.1 recovered-IsPrompt (λ p. refl)

process_2_is_inside : is_inside (recovered.0.phase 2) ≡ true
unfolding recovered is_inside set_phase
process_2_is_inside = refl

one_inside_example : is_inside (recovered.0.phase 3) ≡ false
one_inside_example =
    one_inside recovered.1 recovered-IsPrompt (λ p. refl) 2 3 process_2_is_inside (λ e. omega arith)

unlocked : (lock : LockFile) → none ≡ some lock → ⊥
unlocked lock e = cc

-- Without the condition: process 2 finds the lock of process 1 before its metadata are written,
-- and both load the same ledger.
abbrev raced : Ran
unfolding set_phase is_stale is_alive is_process_alive owner_is_alive read_lock_metadata
    positive_pid time_or
raced = (
  _,
  then_ (opens 1 refl refl) (
      then_ (finds_stale 2 _ refl refl refl) (
        then_ (clears 2 _ refl) (
          then_ (writes_unlinked 1 refl (λ lock e _. unlocked lock e)) (
            then_ (opens 2 refl refl) (
              then_ (writes 2 _ refl refl refl) (
                then_ (loads 1 refl) (
                  then_ (loads 2 refl) (
                    then_ (saves 1 5 (λ n. n + 2) refl)
                      (then_ (saves 2 5 (λ n. n + 3) refl) done))))))))),
)

update_is_lost : raced.0.ledger ≡ 8
unfolding raced
update_is_lost = refl

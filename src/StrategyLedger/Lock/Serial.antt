-- ===== src/StrategyLedger/Lock/Serial.antt =====
-- The updates of processes that share the lock file, and who is between its opening and release.
use looping_agent.Prelude.{
  ℕ, ◌≡◌, ◌≢◌, inl, inr, refl, sym, ap, ◌∙◌, true, false, List, [], ◌∷◌, nat_eq, Bool-cases,
}
use looping_agent.StrategyLedger.Lock.{
  outside, Shared, is_inside, opens, writes, writes_unlinked, loads, saves, releases, leaves_lock,
  keeps_lock, finds_stale, clears, crashes, ticks, Run, done, then_, updates,
}
use looping_agent.StrategyLedger.Lock.Owned.{
  IsPrompt, Owned, alone, Step-Owned, Run-Owned, all_outside-Owned,
}

module _ {D : Type 0} where
  -- From a state in which no process is inside, in every run in which each lock that is found stale
  -- has its owner's number in it, is younger than five times the stale age and is not replaced before
  -- its removal: while one process is between its opening of the lock and its release, no other is.
  pub one_inside :
      {stale_ms : ℕ} {s t : Shared D} (run : Run stale_ms s t)
      → IsPrompt run
      → ((p : ℕ) → s.phase p ≡ outside)
      → (p q : ℕ) → is_inside (t.phase p) ≡ true
      → q ≢ p
      → is_inside (t.phase q) ≡ false
  one_inside {s = s} {t = t} run prompt h p q i other = elim (Bool-cases (is_inside (t.phase q))) [
    | inl e ↦ absurd (other (alone t (Run-Owned run prompt (all_outside-Owned s h)) q p e i))
    | inr e ↦ e
  ]

  -- The updates one after the other.
  unfoldable pub apply_all : List (D → D) → D → D
  apply_all [] ledger = ledger
  apply_all (f ∷ fs) ledger = apply_all fs (f ledger)

  Run-ledger :
      {stale_ms : ℕ} {s t : Shared D} (run : Run stale_ms s t)
      → IsPrompt run
      → Owned s
      → apply_all (updates run) s.ledger ≡ t.ledger
  unfolding IsPrompt apply_all updates
  Run-ledger done prompt owned = refl
  Run-ledger {s = s} (then_ (saves p ledger f o) rest) prompt owned =
      ap (λ d. apply_all (updates rest) (f d)) (sym (owned.is_current p ledger o))
      ∙ Run-ledger rest prompt.1 (Step-Owned (saves p ledger f o) prompt.0 owned)
  Run-ledger (then_ (opens p a b) rest) prompt owned =
      Run-ledger rest prompt.1 (Step-Owned (opens p a b) prompt.0 owned)
  Run-ledger (then_ (writes p l a b c) rest) prompt owned =
      Run-ledger rest prompt.1 (Step-Owned (writes p l a b c) prompt.0 owned)
  Run-ledger (then_ (writes_unlinked p a b) rest) prompt owned =
      Run-ledger rest prompt.1 (Step-Owned (writes_unlinked p a b) prompt.0 owned)
  Run-ledger (then_ (loads p a) rest) prompt owned =
      Run-ledger rest prompt.1 (Step-Owned (loads p a) prompt.0 owned)
  Run-ledger (then_ (leaves_lock p a) rest) prompt owned =
      Run-ledger rest prompt.1 (Step-Owned (leaves_lock p a) prompt.0 owned)
  Run-ledger (then_ (keeps_lock p l a) rest) prompt owned =
      Run-ledger rest prompt.1 (Step-Owned (keeps_lock p l a) prompt.0 owned)
  Run-ledger (then_ (releases p a) rest) prompt owned =
      Run-ledger rest prompt.1 (Step-Owned (releases p a) prompt.0 owned)
  Run-ledger (then_ (finds_stale p l a b c) rest) prompt owned =
      Run-ledger rest prompt.1 (Step-Owned (finds_stale p l a b c) prompt.0 owned)
  Run-ledger (then_ (clears p l a) rest) prompt owned =
      Run-ledger rest prompt.1 (Step-Owned (clears p l a) prompt.0 owned)
  Run-ledger (then_ (crashes p) rest) prompt owned =
      Run-ledger rest prompt.1 (Step-Owned (crashes p) prompt.0 owned)
  Run-ledger (then_ (ticks ms) rest) prompt owned =
      Run-ledger rest prompt.1 (Step-Owned (ticks ms) prompt.0 owned)

  -- From a state in which no process is inside, in every run in which each lock that is found stale
  -- has its owner's number in it, is younger than five times the stale age and is not replaced before
  -- its removal: the ledger file is the result of the saved updates one after the other, in the order
  -- of their saves, so none is lost.
  pub serial_updates :
      {stale_ms : ℕ} {s t : Shared D} (run : Run stale_ms s t)
      → IsPrompt run
      → ((p : ℕ) → s.phase p ≡ outside)
      → apply_all (updates run) s.ledger ≡ t.ledger
  serial_updates {s = s} run prompt h = Run-ledger run prompt (all_outside-Owned s h)

-- ===== src/StrategyLedger/Lock/Owned.antt =====
-- Ownership of the lock file, as an invariant of prompt runs.
use looping_agent.Prelude.{
  ℕ, ◌+◌, ◌*◌, ◌<◌, ◌≡◌, ◌≢◌, ◌⊎◌, inl, inr, refl, sym, ap, ◌∙◌, Bool, true, false, Option, none,
  some, arith, ◌==◌, nat_eq, Bool-cases,
}
use looping_agent.StrategyLedger.Lock.{
  LockMetadata, LockFile, metadata_of, owner_is_alive, is_stale, Phase, outside, opened, holding,
  saved, crashed, clearing, loaded, Shared, set_phase, is_alive, is_process_alive, is_inside,
  in_section, Step, opens, writes, writes_unlinked, loads, saves, releases, leaves_lock, keeps_lock,
  finds_stale, clears, crashes, ticks, Run, done, then_,
}

-- A lock that is found stale within five times the stale age, with the number of its owner in it,
-- is that of a process which is not alive.
is_stale-dead :
    (alive : ℕ → Bool) (stale_ms now p : ℕ) (metadata : LockMetadata)
    → metadata.pid ≡ some p
    → now < metadata.created_at + stale_ms * 5
    → is_stale alive stale_ms now metadata ≡ true
    → alive p ≡ false
unfolding is_stale owner_is_alive
is_stale-dead alive stale_ms now p metadata e h k = ground arith

abbrev OwnLock : Option LockFile → ℕ → Type 0
OwnLock lock p = (l : LockFile) × (lock ≡ some l) × (l.owner ≡ p)

module _ {D : Type 0} where
  -- A lock found stale has its owner's number written and is younger than five times the stale age;
  -- a lock is not replaced between the finding and the removal.
  unfoldable pub IsPromptStep : {stale_ms : ℕ} {s t : Shared D} → Step stale_ms s t → Type 0
  IsPromptStep {stale_ms = ms} {s = s} (finds_stale p lock _ _ _) =
      ((metadata_of lock).pid ≡ some lock.owner) × (s.now < (metadata_of lock).created_at + ms * 5)
  IsPromptStep {s = s} (clears p lock _) = (s.lock ≡ none) ⊎ (s.lock ≡ some lock)
  IsPromptStep _ = Unit

  unfoldable pub IsPrompt : {stale_ms : ℕ} {s t : Shared D} → Run stale_ms s t → Type 0
  IsPrompt done = Unit
  IsPrompt (then_ step rest) = IsPromptStep step × IsPrompt rest

  -- What holds of every state that is reached.
  pub record Owned (s : Shared D) : Type 0 where
    pub has_lock :
        (p : ℕ)
        → is_inside (s.phase p) ≡ true
        → (lock : LockFile) × (s.lock ≡ some lock) × (lock.owner ≡ p)
    pub is_current : (p : ℕ) (ledger : D) → s.phase p ≡ loaded ledger → ledger ≡ s.ledger
    pub is_dead :
        (p : ℕ) (lock : LockFile) → s.phase p ≡ clearing lock → s.phase lock.owner ≡ crashed

  pub alone :
      (s : Shared D)
      → Owned s
      → (p q : ℕ) → is_inside (s.phase p) ≡ true
      → is_inside (s.phase q) ≡ true
      → p ≡ q
  alone s owned p q h k =
      let (l, e, o) = owned.has_lock p h in let (l', e', o') = owned.has_lock q k in cc

  set_phase-cases :
      (p : ℕ) (x : Phase D) (phase : ℕ → Phase D) (q : ℕ)
      → ((q ≡ p) × (set_phase p x phase q ≡ x)) ⊎ ((q ≢ p) × (set_phase p x phase q ≡ phase q))
  unfolding set_phase
  set_phase-cases p x phase q = elim (Bool-cases (q == p)) [
    | inl e ↦ inl (ground (arith, e), rw (e, set_phase) refl)
    | inr e ↦ inr (ground (arith, e), rw (e, set_phase) refl)
  ]

  is_alive-inv : (x : Phase D) → is_alive x ≡ false → x ≡ crashed
  unfolding is_alive
  is_alive-inv crashed h = refl
  is_alive-inv outside h = cc
  is_alive-inv opened h = cc
  is_alive-inv holding h = cc
  is_alive-inv saved h = cc
  is_alive-inv (clearing lock) h = cc
  is_alive-inv (loaded ledger) h = cc

  -- A step of `p` to the phase `x`, with a ledger and a lock.
  module _ (s : Shared D) (owned : Owned s) (p : ℕ) (x : Phase D) (ledger : D)
      (lock : Option LockFile) (own : is_inside x ≡ true → OwnLock lock p)
      (others : (q : ℕ) → q ≢ p → is_inside (s.phase q) ≡ true → OwnLock lock q)
      (current : (d : D) → x ≡ loaded d → d ≡ ledger)
      (others_current : (q : ℕ) (d : D) → q ≢ p → s.phase q ≡ loaded d → d ≡ ledger)
      (dead : (l : LockFile) → x ≡ clearing l → s.phase l.owner ≡ crashed)
      (stays : s.phase p ≡ crashed → x ≡ crashed) where
    still_dead : (q : ℕ) → s.phase q ≡ crashed → set_phase p x s.phase q ≡ crashed
    still_dead q h = elim (set_phase-cases p x s.phase q) [
      | inl (e, k) ↦ k ∙ stays (ap s.phase (sym e) ∙ h)
      | inr (e, k) ↦ k ∙ h
    ]

    step-Owned :
        Owned (record { now = s.now; ledger = ledger; lock = lock; phase = set_phase p x s.phase })
    step-Owned = record {
      has_lock = λ q h. elim (set_phase-cases p x s.phase q) [
        | inl (e, k) ↦ let (l, m, o) = own (ap is_inside (sym k) ∙ h) in (l, m, o ∙ sym e)
        | inr (e, k) ↦ others q e (ap is_inside (sym k) ∙ h)
      ];
      is_current = λ q d h. elim (set_phase-cases p x s.phase q) [
        | inl (e, k) ↦ current d (sym k ∙ h)
        | inr (e, k) ↦ others_current q d e (sym k ∙ h)
      ];
      is_dead = λ q l h. elim (set_phase-cases p x s.phase q) [
        | inl (e, k) ↦ still_dead l.owner (dead l (sym k ∙ h))
        | inr (e, k) ↦ still_dead l.owner (owned.is_dead q l (sym k ∙ h))
      ];
    }

  not_inside : (x y : Phase D) → x ≡ y → is_inside y ≡ false → is_inside x ≡ true → ⊥
  not_inside x y e h k = cc

  inside_at :
      (s : Shared D) (p : ℕ) (x : Phase D)
      → s.phase p ≡ x
      → is_inside x ≡ true
      → is_inside (s.phase p) ≡ true
  inside_at s p x e h = ap is_inside e ∙ h

  own_phase :
      (s : Shared D) (q : ℕ) (lock l : LockFile)
      → s.lock ≡ some l
      → s.lock ≡ some lock
      → l.owner ≡ q
      → s.phase lock.owner ≡ crashed
      → s.phase q ≡ crashed
  own_phase s q lock l m same e h = cc

  found_dead :
      (s : Shared D) (stale_ms : ℕ) (lock : LockFile)
      → (metadata_of lock).pid ≡ some lock.owner
      → s.now < (metadata_of lock).created_at + stale_ms * 5
      → is_stale (is_process_alive s) stale_ms s.now (metadata_of lock) ≡ true
      → s.phase lock.owner ≡ crashed
  unfolding is_process_alive
  found_dead s stale_ms lock e h k =
      is_alive-inv (s.phase lock.owner)
        (is_stale-dead (is_process_alive s) stale_ms s.now lock.owner (metadata_of lock) e h k)

  -- The removal of a found lock takes no lock from a process inside.
  not_cleared :
      (s : Shared D)
      → Owned s
      → (p q : ℕ) (lock : LockFile) → s.phase p ≡ clearing lock
      → (s.lock ≡ none) ⊎ (s.lock ≡ some lock)
      → is_inside (s.phase q) ≡ true
      → ⊥
  unfolding is_inside
  not_cleared s owned p q lock o (inl gone) h = let (l, m, e) = owned.has_lock q h in cc
  not_cleared s owned p q lock o (inr same) h =
      let (l, m, e) = owned.has_lock q h in
      not_inside (s.phase q) crashed (own_phase s q lock l m same e (owned.is_dead p lock o)) refl h

  in_section-is_inside : (x : Phase D) → in_section x ≡ true → is_inside x ≡ true
  unfolding in_section is_inside
  in_section-is_inside outside h = cc
  in_section-is_inside opened h = refl
  in_section-is_inside holding h = refl
  in_section-is_inside saved h = refl
  in_section-is_inside crashed h = cc
  in_section-is_inside (clearing lock) h = cc
  in_section-is_inside (loaded ledger) h = refl

  pub Step-Owned :
      {stale_ms : ℕ} {s t : Shared D} (step : Step stale_ms s t)
      → IsPromptStep step
      → Owned s
      → Owned t
  unfolding IsPromptStep is_inside
  Step-Owned {s = s} (opens p o n) _ owned =
      step-Owned s owned p opened s.ledger _ (λ _. (_, refl, refl))
        (λ q e h. let (l, m, _) = owned.has_lock q h in cc) (λ d e. cc)
        (λ q d _ e. owned.is_current q d e) (λ l e. cc) (λ e. cc)
  Step-Owned {s = s} (writes p lock o m e) _ owned =
      step-Owned s owned p holding s.ledger _ (λ _. (_, refl, e))
        (λ q n h. absurd (n (alone s owned q p h (inside_at s p opened o refl)))) (λ d e. cc)
        (λ q d _ e. owned.is_current q d e) (λ l e. cc) (λ e. cc)
  Step-Owned {s = s} (writes_unlinked p o none_own) _ owned =
      let (l, m, e) = owned.has_lock p (inside_at s p opened o refl) in absurd (none_own l m e)
  Step-Owned {s = s} (loads p o) _ owned =
      step-Owned s owned p (loaded s.ledger) s.ledger s.lock
        (λ _. owned.has_lock p (inside_at s p holding o refl)) (λ q _ h. owned.has_lock q h)
        (λ d e. cc) (λ q d _ e. owned.is_current q d e) (λ l e. cc) (λ e. cc)
  Step-Owned {s = s} (saves p ledger f o) _ owned =
      step-Owned s owned p saved (f ledger) s.lock
        (λ _. owned.has_lock p (inside_at s p (loaded ledger) o refl)) (λ q _ h. owned.has_lock q h)
        (λ d e. cc)
        (λ q d n e. absurd (
          n (
            alone s owned q p (inside_at s q (loaded d) e refl)
              (inside_at s p (loaded ledger) o refl))))
        (λ l e. cc) (λ e. cc)
  Step-Owned {s = s} (releases p o) _ owned =
      let i = in_section-is_inside (s.phase p) o in
      step-Owned s owned p outside s.ledger none (λ e. cc)
        (λ q n h. absurd (n (alone s owned q p h i))) (λ d e. cc)
        (λ q d _ e. owned.is_current q d e) (λ l e. cc)
        (λ e. absurd (not_inside (s.phase p) crashed e refl i))
  Step-Owned {s = s} (leaves_lock p i) _ owned =
      step-Owned s owned p outside s.ledger s.lock (λ e. cc) (λ q _ h. owned.has_lock q h)
        (λ d e. cc) (λ q d _ e. owned.is_current q d e) (λ l e. cc)
        (λ e. absurd (not_inside (s.phase p) crashed e refl i))
  Step-Owned {s = s} (keeps_lock p lock o) _ owned =
      step-Owned s owned p outside s.ledger s.lock (λ e. cc) (λ q _ h. owned.has_lock q h)
        (λ d e. cc) (λ q d _ e. owned.is_current q d e) (λ l e. cc) (λ e. cc)
  Step-Owned {stale_ms = stale_ms} {s = s} (finds_stale p lock o m h) prompt owned =
      step-Owned s owned p (clearing lock) s.ledger s.lock (λ e. cc) (λ q _ h. owned.has_lock q h)
        (λ d e. cc) (λ q d _ e. owned.is_current q d e)
        (λ l e. let gone = found_dead s stale_ms lock prompt.0 prompt.1 h in cc) (λ e. cc)
  Step-Owned {s = s} (clears p lock o) prompt owned =
      step-Owned s owned p outside s.ledger none (λ e. cc)
        (λ q n h. absurd (not_cleared s owned p q lock o prompt h)) (λ d e. cc)
        (λ q d _ e. owned.is_current q d e) (λ l e. cc) (λ e. cc)
  Step-Owned {s = s} (crashes p) _ owned =
      step-Owned s owned p crashed s.ledger s.lock (λ e. cc) (λ q _ h. owned.has_lock q h)
        (λ d e. cc) (λ q d _ e. owned.is_current q d e) (λ l e. cc) (λ e. refl)
  Step-Owned {s = s} (ticks ms) _ owned = record {
    has_lock = owned.has_lock;
    is_current = owned.is_current;
    is_dead = owned.is_dead;
  }

  pub Run-Owned :
      {stale_ms : ℕ} {s t : Shared D} (run : Run stale_ms s t) → IsPrompt run → Owned s → Owned t
  unfolding IsPrompt
  Run-Owned done prompt owned = owned
  Run-Owned (then_ step rest) prompt owned =
      Run-Owned rest prompt.1 (Step-Owned step prompt.0 owned)

  outside_only : (x : Phase D) {d : D} → x ≡ outside → x ≡ loaded d → ⊥
  outside_only x e h = cc

  outside_never : (x : Phase D) {l : LockFile} → x ≡ outside → x ≡ clearing l → ⊥
  outside_never x e h = cc

  pub all_outside-Owned : (s : Shared D) → ((p : ℕ) → s.phase p ≡ outside) → Owned s
  unfolding is_inside
  all_outside-Owned s h = record {
    has_lock = λ p i. absurd (not_inside (s.phase p) outside (h p) refl i);
    is_current = λ p d e. absurd (outside_only (s.phase p) (h p) e);
    is_dead = λ p l e. absurd (outside_never (s.phase p) (h p) e);
  }

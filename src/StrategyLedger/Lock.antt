-- ===== src/StrategyLedger/Lock.antt =====
-- The lock file of `StrategyLedgerStore` in agent/src/core/strategyLedger.ts: `withLock`,
-- `clearStaleLock` and `readLockMetadata`, as the steps of processes that share the file system. A
-- process is a number; it is alive until it crashes. `D` is the type of the ledger file.
pub mod Owned
pub mod Serial
use looping_agent.Prelude.{
  ℕ, ◌+◌, ◌*◌, ◌≡◌, Bool, true, false, ◌&&◌, Option, none, some, List, [], ◌∷◌, ltb, ◌==◌, nat_eq,
  if◌then◌else◌,
}
use looping_agent.Js.Int.{ℤ, pos}
use looping_agent.Types.{Iso}

pub record LockMetadata : Type 0 where
  pub pid : Option ℕ
  pub created_at : ℕ

-- What the lock file holds: the entries `pid`, where it is an integer, and `createdAt`.
pub record LockContent : Type 0 where
  pub pid : Option ℤ
  pub created_at : Iso

-- `parsed.pid > 0`
unfoldable pub positive_pid : Option ℤ → Option ℕ
positive_pid (some (pos p)) = if ltb 0 p then some p else none
positive_pid _ = none

unfoldable pub time_or : ℕ → Iso → ℕ
time_or mtime none = mtime
time_or mtime (some t) = t

-- `readLockMetadata`, for the file's time of change and its content, `none` where that is no JSON.
unfoldable pub read_lock_metadata : ℕ → Option LockContent → LockMetadata
read_lock_metadata mtime none = record { pid = none; created_at = mtime }
read_lock_metadata mtime (some content) = record {
  pid = positive_pid content.pid;
  created_at = time_or mtime content.created_at;
}

unfoldable pub owner_is_alive : (ℕ → Bool) → Option ℕ → Bool
owner_is_alive alive none = false
owner_is_alive alive (some pid) = alive pid

-- The tests of `clearStaleLock` on the age, up to the removal.
unfoldable pub is_stale : (ℕ → Bool) → ℕ → ℕ → LockMetadata → Bool
is_stale alive stale_ms now metadata =
    let living = owner_is_alive alive metadata.pid in
    if living && ltb now (metadata.created_at + stale_ms)
    then false
    else if living && ltb now (metadata.created_at + stale_ms * 5)
    then false
    else true

-- The lock file: the process that created it, its time of change and its content.
pub record LockFile : Type 0 where
  pub owner : ℕ
  pub mtime : ℕ
  pub content : Option LockContent

abbrev pub metadata_of : LockFile → LockMetadata
metadata_of lock = read_lock_metadata lock.mtime lock.content

-- Where a process stands: outside `withLock` or waiting, before the removal of a lock that it found
-- stale, after `openSync`, after the metadata are written, with a loaded ledger, after the save, or
-- crashed.
pub data Phase (D : Type 0) : Type 0 where
  outside opened holding saved crashed : Phase D
  clearing : LockFile → Phase D
  loaded : D → Phase D

pub record Shared (D : Type 0) : Type 0 where
  pub now : ℕ
  pub ledger : D
  pub lock : Option LockFile
  pub phase : ℕ → Phase D

module _ {D : Type 0} where
  unfoldable pub set_phase : ℕ → Phase D → (ℕ → Phase D) → ℕ → Phase D
  set_phase p x phase q = if q == p then x else phase q

  unfoldable pub is_alive : Phase D → Bool
  is_alive crashed = false
  is_alive _ = true

  -- `isProcessAlive`
  unfoldable pub is_process_alive : Shared D → ℕ → Bool
  is_process_alive s p = is_alive (s.phase p)

  -- A process between `openSync` and the release.
  unfoldable pub is_inside : Phase D → Bool
  is_inside outside = false
  is_inside crashed = false
  is_inside (clearing lock) = false
  is_inside _ = true

  -- A process in `fn`, or after it.
  unfoldable pub in_section : Phase D → Bool
  in_section holding = true
  in_section saved = true
  in_section (loaded ledger) = true
  in_section _ = false

  abbrev pub move : ℕ → Phase D → Shared D → Shared D
  move p x s = record s { phase = set_phase p x s.phase }

  abbrev pub new_lock : ℕ → Shared D → LockFile
  new_lock p s = record { owner = p; mtime = s.now; content = none }

  abbrev pub written : ℕ → Shared D → LockFile → LockFile
  written p s lock = record lock {
    mtime = s.now;
    content = some (record { pid = some (pos p); created_at = some s.now });
  }

  -- One step of one process, or of the clock. A write goes to the file that the process
  -- created; a release and a removal unlink whatever lock file there is. A failure of the write or of
  -- an unlink leaves the lock file.
  pub data Step (stale_ms : ℕ) : Shared D → Shared D → Type 0 where
    opens :
        {s : Shared D} (p : ℕ)
        → s.phase p ≡ outside
        → s.lock ≡ none
        → Step stale_ms s (record (move p opened s) { lock = some (new_lock p s) })
    writes :
        {s : Shared D} (p : ℕ) (lock : LockFile)
        → s.phase p ≡ opened
        → s.lock ≡ some lock
        → lock.owner ≡ p
        → Step stale_ms s (record (move p holding s) { lock = some (written p s lock) })
    writes_unlinked :
        {s : Shared D} (p : ℕ)
        → s.phase p ≡ opened
        → ((lock : LockFile) → s.lock ≡ some lock → lock.owner ≡ p → ⊥)
        → Step stale_ms s (move p holding s)
    loads :
        {s : Shared D} (p : ℕ) → s.phase p ≡ holding → Step stale_ms s (move p (loaded s.ledger) s)
    saves :
        {s : Shared D} (p : ℕ) (ledger : D) (f : D → D)
        → s.phase p ≡ loaded ledger
        → Step stale_ms s (record (move p saved s) { ledger = f ledger })
    releases :
        {s : Shared D} (p : ℕ)
        → in_section (s.phase p) ≡ true
        → Step stale_ms s (record (move p outside s) { lock = none })
    leaves_lock :
        {s : Shared D} (p : ℕ) → is_inside (s.phase p) ≡ true → Step stale_ms s (move p outside s)
    finds_stale :
        {s : Shared D} (p : ℕ) (lock : LockFile)
        → s.phase p ≡ outside
        → s.lock ≡ some lock
        → is_stale (is_process_alive s) stale_ms s.now (metadata_of lock) ≡ true
        → Step stale_ms s (move p (clearing lock) s)
    clears :
        {s : Shared D} (p : ℕ) (lock : LockFile)
        → s.phase p ≡ clearing lock
        → Step stale_ms s (record (move p outside s) { lock = none })
    keeps_lock :
        {s : Shared D} (p : ℕ) (lock : LockFile)
        → s.phase p ≡ clearing lock
        → Step stale_ms s (move p outside s)
    crashes : {s : Shared D} (p : ℕ) → Step stale_ms s (move p crashed s)
    ticks : {s : Shared D} (ms : ℕ) → Step stale_ms s (record s { now = s.now + ms })

  pub data Run (stale_ms : ℕ) : Shared D → Shared D → Type 0 where
    done : {s : Shared D} → Run stale_ms s s
    then_ : {s t u : Shared D} → Step stale_ms s t → Run stale_ms t u → Run stale_ms s u

  -- The updates that a run saves, in order.
  unfoldable pub updates : {stale_ms : ℕ} {s t : Shared D} → Run stale_ms s t → List (D → D)
  updates done = []
  updates (then_ (saves p ledger f h) rest) = f ∷ updates rest
  updates (then_ _ rest) = updates rest

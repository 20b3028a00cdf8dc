-- ===== src/Synch/Lock.antt =====
-- The threads that use one lock, as a transition system over the functions of threads/synch.c.
use project.Base.{mem, ℕ, ◌≡◌, ◌≢◌, Bool, true, false, [], ok, ◌==◌, if◌then◌else◌}
use project.Threads.{blocked}
use project.Threads.Ready
use project.Synch.{
  Sync, down_pass, sema_try_down, sema_up, lock_take, lock_acquire_check, lock_drop,
}

-- Where a thread is with respect to the lock: outside, in the loop of `sema_down`, behind the loop
-- but not yet the `holder`, the `holder`, or in `lock_release` before its `sema_up`.
pub data Stage : Type 0 where
  out down taken held releasing : Stage

abbrev pub owns : Stage → Bool
owns out = false
owns down = false
owns taken = true
owns held = true
owns releasing = true

pub record System : Type 0 where
  pub sync : Sync
  pub stage : ℕ → Stage

abbrev pub current : System → ℕ
current s = s.sync.sched.current

-- the current thread moves to a stage, with the kernel state after its step
abbrev pub go : System → Sync → Stage → System
go s σ g = record { sync = σ; stage = λ t. if t == current s then g else s.stage t }

-- What other code may do meanwhile: switch threads, tick, use other semaphores. It leaves the lock
-- alone, and neither wakes the threads that wait for it nor puts to sleep those in the loop.
pub record Elsewhere (l : ℕ) (a b : Sync) : Type 0 where
  pub sema : b.semas l ≡ a.semas l
  pub holder : b.holders l ≡ a.holders l
  pub idle : b.sched.idle_thread ≡ a.sched.idle_thread
  pub valid : Ready.IsValid b.sched
  pub asleep : (t : ℕ) → mem t (a.semas l).waiters ≡ true → b.sched.status t ≡ blocked

module _ (l : ℕ) where
  pub data Step (s : System) : System → Type 0 where
    -- a call of `lock_acquire`, by a thread other than the idle thread
    enter :
        s.stage (current s) ≡ out
        → current s ≢ s.sync.sched.idle_thread
        → lock_acquire_check s.sync l ≡ ok tt
        → Step s (go s s.sync down)
    pass :
        {σ : Sync}
        → s.stage (current s) ≡ down
        → down_pass s.sync l ≡ ok (true, σ)
        → Step s (go s σ taken)
    wait :
        {σ : Sync}
        → s.stage (current s) ≡ down
        → down_pass s.sync l ≡ ok (false, σ)
        → Step s (go s σ down)
    -- a call of `lock_try_acquire` that succeeds
    try :
        {σ : Sync}
        → s.stage (current s) ≡ out
        → lock_acquire_check s.sync l ≡ ok tt
        → sema_try_down s.sync l ≡ (true, σ)
        → Step s (go s (lock_take σ l) held)
    take : s.stage (current s) ≡ taken → Step s (go s (lock_take s.sync l) held)
    drop :
        {σ : Sync}
        → s.stage (current s) ≡ held
        → lock_drop s.sync l ≡ ok σ
        → Step s (go s σ releasing)
    up :
        {σ : Sync} → s.stage (current s) ≡ releasing → sema_up s.sync l ≡ ok σ → Step s (go s σ out)
    other :
        {σ : Sync}
        → Elsewhere l s.sync σ
        → ((t : ℕ)
            → s.stage t ≡ down
            → σ.sched.status t ≡ blocked
            → s.sync.sched.status t ≡ blocked)
        → Step s (record { sync = σ; stage = s.stage })

  -- a freshly initialised lock, with no thread near it
  pub record IsInitial (s : System) : Type 0 where
    pub sema : s.sync.semas l ≡ record { value = 1; waiters = [] }
    pub valid : Ready.IsValid s.sync.sched
    pub outside : (t : ℕ) → s.stage t ≡ out

  pub data Reach (s : System) : System → Type 0 where
    here : Reach s s
    next : {t u : System} → Reach s t → Step t u → Reach s u

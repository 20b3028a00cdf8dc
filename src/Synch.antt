-- ===== src/Synch.antt =====
-- threads/synch.c: semaphores, locks and condition variables over the scheduler. Interrupts are off
-- inside each function but where it blocks, so what runs between two switches is one step.
pub mod Lock
pub mod Token
pub mod Passes
pub mod Exclusion
pub mod Safety
pub mod Returns
mod Tests
use project.Base.{
  ℕ, ◌-◌, Bool, true, false, not, List, [], ◌∷◌, ◌++◌, Outcome, ok, assert, ◌>>=◌, ◌>>◌, ◌==◌,
  if◌then◌else◌, add32, ltb,
}
use project.Paging.{null}
use project.Threads.{Sched, thread_block, thread_unblock}

-- `struct semaphore`
pub record Sema : Type 0 where
  pub value : ℕ
  pub waiters : List ℕ

-- The scheduler, and what stands at each address: a semaphore (a lock's own semaphore stands at the
-- lock's address), the `holder` of a lock, and the `waiters` of a condition, which are addresses of
-- semaphores.
pub record Sync : Type 0 where
  pub sched : Sched
  pub semas : ℕ → Sema
  pub holders : ℕ → ℕ
  pub conditions : ℕ → List ℕ

abbrev pub set_sema : Sync → ℕ → Sema → Sync
set_sema σ s x = record σ { semas = λ u. if u == s then x else σ.semas u }

abbrev pub set_holder : Sync → ℕ → ℕ → Sync
set_holder σ l t = record σ { holders = λ u. if u == l then t else σ.holders u }

abbrev pub set_condition : Sync → ℕ → List ℕ → Sync
set_condition σ c ws = record σ { conditions = λ u. if u == c then ws else σ.conditions u }

unfoldable pub sema_init : Sync → (sema value : ℕ) → Sync
sema_init σ sema value = set_sema σ sema (record { value = value; waiters = [] })

-- One pass of the loop of `sema_down`, up to its end (true), or up to the switch to another thread
-- (false), after which the thread is at the loop's test again.
unfoldable pub down_pass : Sync → (sema : ℕ) → Outcome (Bool × Sync)
down_pass σ sema =
    let x = σ.semas sema in
    let wait = (do
      k ← thread_block σ.sched
      ok (
        false,
        record (set_sema σ sema (record x { waiters = x.waiters ++ (σ.sched.current ∷ []) })) {
          sched = k;
        },
      )) in
    let take = ok (true, set_sema σ sema (record x { value = x.value - 1 })) in
    if x.value == 0 then wait else take

unfoldable pub sema_try_down : Sync → (sema : ℕ) → Bool × Sync
sema_try_down σ sema =
    let x = σ.semas sema in
    if ltb 0 x.value then (true, set_sema σ sema (record x { value = x.value - 1 })) else (false, σ)

-- wakes the thread at the head of the waiters, if there is one
pub wake_first : Sync → (sema : ℕ) → List ℕ → Outcome Sync
wake_first σ sema [] = ok σ
wake_first σ sema (t ∷ ts) = do
  k ← thread_unblock σ.sched t
  ok (record (set_sema σ sema (record (σ.semas sema) { waiters = ts })) { sched = k })

unfoldable pub sema_up : Sync → (sema : ℕ) → Outcome Sync
unfolding wake_first
sema_up σ sema = do
  σ' ← wake_first σ sema (σ.semas sema).waiters
  ok (set_sema σ' sema (record (σ'.semas sema) { value = add32 (σ'.semas sema).value 1 }))

unfoldable pub lock_init : Sync → (lock : ℕ) → Sync
unfolding sema_init
lock_init σ lock = sema_init (set_holder σ lock null) lock 1

unfoldable pub lock_held_by_current_thread : Sync → (lock : ℕ) → Bool
lock_held_by_current_thread σ lock = σ.holders lock == σ.sched.current

-- `lock_acquire` is its assertion, `sema_down` on the lock's semaphore, and then this.
unfoldable pub lock_take : Sync → (lock : ℕ) → Sync
lock_take σ lock = set_holder σ lock σ.sched.current

unfoldable pub lock_acquire_check : Sync → (lock : ℕ) → Outcome (Unit {0})
unfolding lock_held_by_current_thread
lock_acquire_check σ lock = assert (not (lock_held_by_current_thread σ lock))

unfoldable pub lock_try_acquire : Sync → (lock : ℕ) → Outcome (Bool × Sync)
unfolding lock_acquire_check sema_try_down lock_take
lock_try_acquire σ lock = do
  lock_acquire_check σ lock
  let (success, σ') = sema_try_down σ lock
  ok (success, if success then lock_take σ' lock else σ')

-- `lock_release` up to its call of `sema_up`
unfoldable pub lock_drop : Sync → (lock : ℕ) → Outcome Sync
unfolding lock_held_by_current_thread
lock_drop σ lock = do assert (lock_held_by_current_thread σ lock); ok (set_holder σ lock null)

unfoldable pub lock_release : Sync → (lock : ℕ) → Outcome Sync
unfolding lock_drop sema_up
lock_release σ lock = do σ' ← lock_drop σ lock; sema_up σ' lock

unfoldable pub cond_init : Sync → (cond : ℕ) → Sync
cond_init σ cond = set_condition σ cond []

-- `cond_wait` up to its `sema_down` on `waiter`, the semaphore on the caller's stack; `sema_down`
-- and `lock_acquire` follow.
unfoldable pub cond_wait_enter : Sync → (cond lock waiter : ℕ) → Outcome Sync
unfolding lock_held_by_current_thread sema_init lock_release
cond_wait_enter σ cond lock waiter = do
  assert (lock_held_by_current_thread σ lock)
  let σ' = sema_init σ waiter 0
  lock_release (set_condition σ' cond (σ'.conditions cond ++ (waiter ∷ []))) lock

-- what `cond_signal` does with the waiters of the condition
pub signal_first : Sync → (cond : ℕ) → List ℕ → Outcome Sync
signal_first σ cond [] = ok σ
signal_first σ cond (w ∷ ws) = sema_up (set_condition σ cond ws) w

unfoldable pub cond_signal : Sync → (cond lock : ℕ) → Outcome Sync
unfolding lock_held_by_current_thread signal_first
cond_signal σ cond lock = do
  assert (lock_held_by_current_thread σ lock)
  signal_first σ cond (σ.conditions cond)

-- `while (!list_empty (&cond->waiters))`, with the waiters left to signal as the measure
pub broadcast_loop : List ℕ → Sync → (cond lock : ℕ) → Outcome Sync
broadcast_loop [] σ cond lock = ok σ
broadcast_loop (_ ∷ ws) σ cond lock = do
  σ' ← cond_signal σ cond lock
  broadcast_loop ws σ' cond lock

unfoldable pub cond_broadcast : Sync → (cond lock : ℕ) → Outcome Sync
unfolding broadcast_loop
cond_broadcast σ cond lock = broadcast_loop (σ.conditions cond) σ cond lock

-- ===== src/Threads.antt =====
-- threads/thread.c: the scheduler. A thread is named by the address of its `struct thread`; the
-- functions run with interrupts off, so each is one step up to the switch to another thread.
pub mod Ready
mod Tests
use project.Base.{
  ℕ, ◌+◌, ◌%◌, ◌^◌, Bool, true, false, not, ◌||◌, ◌&&◌, List, [], ◌∷◌, ◌++◌, Outcome, ok, assert,
  ◌>>=◌, ◌>>◌, ◌==◌, leb, if◌then◌else◌, add32, word_mod,
}

-- `enum thread_status`
pub data Status : Type 0 where
  running ready blocked dying : Status

abbrev pub is_running : Status → Bool
is_running running = true
is_running _ = false

abbrev pub is_blocked : Status → Bool
is_blocked blocked = true
is_blocked _ = false

-- `TIME_SLICE`
abbrev pub time_slice : ℕ
time_slice = 4

-- The scheduler's globals and the `status` of each thread. `idle_ticks`, `user_ticks` and
-- `kernel_ticks` are statistics; `yield_on_return` is what `intr_yield_on_return` sets.
pub record Sched : Type 0 where
  pub status : ℕ → Status
  pub ready_list : List ℕ
  pub current : ℕ
  pub idle_thread : ℕ
  pub thread_ticks : ℕ
  pub idle_ticks : ℕ
  pub user_ticks : ℕ
  pub kernel_ticks : ℕ
  pub yield_on_return : Bool

abbrev pub set_status : Sched → ℕ → Status → Sched
set_status k t s = record k { status = λ u. if u == t then s else k.status u }

-- the head of the ready list, or the idle thread where there is none
abbrev pub head_or : ℕ → List ℕ → ℕ
head_or idle [] = idle
head_or idle (t ∷ ts) = t

abbrev pub tail : List ℕ → List ℕ
tail [] = []
tail (t ∷ ts) = ts

-- the thread to run next, and the ready list without it
unfoldable pub next_thread_to_run : Sched → ℕ × List ℕ
next_thread_to_run k = (head_or k.idle_thread k.ready_list, tail k.ready_list)

-- The running thread takes the processor with a new time slice. (The page of a thread that is dying
-- is freed here too, which is left out.)
unfoldable pub thread_schedule_tail : Sched → Sched
thread_schedule_tail k = record (set_status k k.current running) { thread_ticks = 0 }

-- `switch_threads` makes `next` the running thread.
unfoldable pub schedule : Sched → Outcome Sched
unfolding next_thread_to_run thread_schedule_tail
schedule k = do
  assert (not (is_running (k.status k.current)))
  let (next, rest) = next_thread_to_run k
  ok (thread_schedule_tail (record k { ready_list = rest; current = next }))

unfoldable pub thread_block : Sched → Outcome Sched
thread_block k = schedule (set_status k k.current blocked)

unfoldable pub thread_unblock : Sched → ℕ → Outcome Sched
thread_unblock k t = do
  assert (is_blocked (k.status t))
  ok (set_status (record k { ready_list = k.ready_list ++ (t ∷ []) }) t ready)

unfoldable pub thread_yield : Sched → Outcome Sched
thread_yield k =
    let queued =
      if k.current == k.idle_thread then k.ready_list else k.ready_list ++ (k.current ∷ []) in
    schedule (set_status (record k { ready_list = queued }) k.current ready)

-- `has_pagedir` says whether the running thread belongs to a user process.
unfoldable pub thread_tick : Sched → (has_pagedir : Bool) → Sched
thread_tick k has_pagedir =
    let idling = k.current == k.idle_thread in
    let ticks = add32 k.thread_ticks 1 in
    record k {
      idle_ticks = (if idling then (k.idle_ticks + 1) % 2 ^ 64 else k.idle_ticks);
      user_ticks =
          (if not idling && has_pagedir then (k.user_ticks + 1) % 2 ^ 64 else k.user_ticks);
      kernel_ticks =
          (if not idling && not has_pagedir then (k.kernel_ticks + 1) % 2 ^ 64 else k.kernel_ticks);
      thread_ticks = ticks;
      yield_on_return = k.yield_on_return || leb time_slice ticks;
    }

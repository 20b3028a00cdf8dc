-- ===== src/Synch/Tests.antt =====
-- Two threads at one lock, and the theorems at the states they reach.
use project.Base.{mem, ℕ, ◌≡◌, refl, true, false, [], ◌∷◌, arith, ◌==◌, if◌then◌else◌}
use project.Threads.{running, ready, blocked, Sched, set_status}
use project.Threads.Ready.{IsValid, switched, requeued, thread_yield-IsValid}
use project.Paging.{null}
use project.Synch.{down_pass, lock_take, lock_acquire_check, lock_held_by_current_thread}
use project.Synch.Lock.{
  out, down, taken, held, owns, System, go, Elsewhere, enter, pass, take, other, IsInitial, Reach,
  here, next,
}
use project.Synch.Exclusion.{NoLostWakeup}
use project.Synch.Safety.{Reach-exclusive, Reach-alert}
use project.Synch.Returns.{NextReturns, Reach-returns}

-- thread 10 runs, 20 is ready, and 1 is the idle thread
abbrev sched : Sched
sched = record {
  status = λ t. if t == 10 then running else if t == 20 then ready else blocked;
  ready_list = 20 ∷ [];
  current = 10;
  idle_thread = 1;
  thread_ticks = 0;
  idle_ticks = 0;
  user_ticks = 0;
  kernel_ticks = 0;
  yield_on_return = false;
}

sched-IsValid : IsValid sched
sched-IsValid = record {
  fair = record {
    alone = λ t h. ground arith;
    listed = λ t h. ground arith;
    queued = λ t h ne. ground arith;
    once = (refl, tt);
  };
  runs = refl;
}

-- the lock is at address 100
abbrev free : System
free = record {
  sync = record {
    sched = sched;
    semas = λ l. record { value = 1; waiters = [] };
    holders = λ l. null;
    conditions = λ c. [];
  };
  stage = λ t. out;
}

free-IsInitial : IsInitial 100 free
free-IsInitial = record { sema = refl; valid = sched-IsValid; outside = λ t. refl }

-- Thread 10 is in the loop, then behind it, then the holder.
abbrev entered : System
entered = go free free.sync down

abbrev passed : System
passed =
    go entered
      (record entered.sync {
        semas = λ u. if u == 100 then record { value = 0; waiters = [] } else entered.sync.semas u;
      })
      taken

abbrev holding : System
holding = go passed (record passed.sync { holders = λ u. if u == 100 then 10 else null }) held

-- the timer's interrupt: thread 20 runs
abbrev yielded : Sched
yielded = switched (set_status (record sched { ready_list = requeued sched }) 10 ready)

abbrev preempted : System
preempted = record { sync = record holding.sync { sched = yielded }; stage = holding.stage }

-- it wants the lock as well, and sleeps
abbrev second : System
second = go preempted preempted.sync down

Reach-holding : Reach 100 free holding
unfolding lock_acquire_check lock_held_by_current_thread down_pass lock_take
Reach-holding = next (next (next here (enter refl (λ e. cc) refl)) (pass refl refl)) (take refl)

Reach-preempted : Reach 100 free preempted
Reach-preempted = next Reach-holding (other preemption (λ t e b. ground arith))
  where
    preemption : Elsewhere 100 holding.sync preempted.sync
    preemption = record {
      sema = refl;
      holder = refl;
      idle = refl;
      valid = (thread_yield-IsValid sched sched-IsValid).1;
      asleep = λ t h. ground arith;
    }

Reach-second : Reach 100 free second
unfolding lock_acquire_check lock_held_by_current_thread
Reach-second = next Reach-preempted (enter refl (λ e. cc) refl)

Reach-exclusive_example :
    ((t u : ℕ) → owns (second.stage t) ≡ true → owns (second.stage u) ≡ true → t ≡ u)
    × ((t : ℕ) → second.stage t ≡ held → second.sync.holders 100 ≡ t)
Reach-exclusive_example = Reach-exclusive free-IsInitial Reach-second

Reach-alert_example :
    ((t : ℕ)
      → second.stage t ≡ down
      → second.sync.sched.status t ≡ blocked
      → mem t (second.sync.semas 100).waiters ≡ true)
    × NoLostWakeup second.sync.sched (second.sync.semas 100) second.stage
Reach-alert_example = Reach-alert free-IsInitial Reach-second

-- thread 20 is outside of the lock that thread 10 holds
Reach-returns_example : NextReturns 100 preempted out
Reach-returns_example = Reach-returns free-IsInitial refl Reach-preempted (λ e. omega arith)

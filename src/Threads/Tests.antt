-- ===== src/Threads/Tests.antt =====
-- A concrete scheduler state, and the theorems at it.
use project.Base.{ℕ, ◌≡◌, refl, false, List, [], ◌∷◌, Outcome, ok, arith, ◌==◌, if◌then◌else◌}
use project.Threads.{
  Status, running, ready, blocked, Sched, set_status, thread_block, thread_unblock, thread_yield,
  schedule, next_thread_to_run, thread_schedule_tail,
}
use project.Threads.Ready.{
  IsValid, switched, requeued, thread_block-IsValid, thread_unblock-IsValid, thread_yield-IsValid,
}

-- thread 10 runs, 20 and 30 are ready, 40 is blocked, and 1 is the idle thread
abbrev status : ℕ → Status
status t =
    if t == 10 then running else if t == 20 then ready else if t == 30 then ready else blocked

abbrev busy : Sched
busy = record {
  status = status;
  ready_list = 20 ∷ 30 ∷ [];
  current = 10;
  idle_thread = 1;
  thread_ticks = 2;
  idle_ticks = 0;
  user_ticks = 5;
  kernel_ticks = 0;
  yield_on_return = false;
}

busy-IsValid : IsValid busy
busy-IsValid = record {
  fair = record {
    alone = λ t h. ground arith;
    listed = λ t h. ground arith;
    queued = λ t h ne. ground arith;
    once = (refl, (refl, tt));
  };
  runs = refl;
}

abbrev running_and_ready : Outcome Sched → List ℕ
running_and_ready (ok k) = k.current ∷ k.ready_list
running_and_ready _ = []

thread_yield-busy : running_and_ready (thread_yield busy) ≡ 20 ∷ 30 ∷ 10 ∷ []
unfolding thread_yield schedule next_thread_to_run thread_schedule_tail
thread_yield-busy = refl

thread_block-IsValid_example :
    let k' = switched (set_status busy 10 blocked) in (thread_block busy ≡ ok k') × IsValid k'
thread_block-IsValid_example = thread_block-IsValid busy busy-IsValid

thread_unblock-IsValid_example :
    let k' = set_status (record busy { ready_list = 20 ∷ 30 ∷ 40 ∷ [] }) 40 ready in
    (thread_unblock busy 40 ≡ ok k') × IsValid k'
thread_unblock-IsValid_example = thread_unblock-IsValid busy 40 busy-IsValid refl

thread_yield-IsValid_example :
    let k' = switched (set_status (record busy { ready_list = requeued busy }) 10 ready) in
    (thread_yield busy ≡ ok k') × IsValid k'
thread_yield-IsValid_example = thread_yield-IsValid busy busy-IsValid

-- ===== src/Threads/Ready.antt =====
-- The scheduler's invariant: one running thread, and a ready list of exactly the ready threads.
use project.Base.{
  ℕ, ◌≡◌, ◌≢◌, refl, inl, inr, true, false, List, [], ◌∷◌, ◌++◌, ok, arith, ◌==◌, if◌then◌else◌,
  Bool-cases, eq→==, mem, Nodup, mem-append, Nodup-append, List-cases,
}
use project.Threads.{
  head_or, tail, Status, running, ready, blocked, Sched, set_status, schedule, thread_block,
  thread_unblock, thread_yield, is_running,
}

-- Of all threads only the current one is running; the ready list holds each ready thread once, but
-- for the idle thread, which need not be on it.
pub record IsFair (k : Sched) : Type 0 where
  pub alone : (t : ℕ) → k.status t ≡ running → t ≡ k.current
  pub listed : (t : ℕ) → mem t k.ready_list ≡ true → k.status t ≡ ready
  pub queued : (t : ℕ) → k.status t ≡ ready → t ≢ k.idle_thread → mem t k.ready_list ≡ true
  pub once : Nodup k.ready_list

-- between two calls of the kernel the current thread runs
pub record IsValid (k : Sched) : Type 0 where
  pub fair : IsFair k
  pub runs : k.status k.current ≡ running

-- the state after the switch
abbrev pub switched : Sched → Sched
switched k = record k {
  status = λ u. if u == head_or k.idle_thread k.ready_list then running else k.status u;
  ready_list = tail k.ready_list;
  current = head_or k.idle_thread k.ready_list;
  thread_ticks = 0;
}

pub schedule-switched :
    (k : Sched) → is_running (k.status k.current) ≡ false → schedule k ≡ ok (switched k)
unfolding schedule
schedule-switched k h = rw h refl

-- A switch from a state in which no thread runs leaves the scheduler valid.
switched-IsValid : (k : Sched) → IsFair k → ((t : ℕ) → k.status t ≢ running) → IsValid (switched k)
switched-IsValid k f none_runs = elim (List-cases k.ready_list) [
  | inl e ↦ record {
    fair = record {
      alone = λ t h. ground (arith, none_runs t);
      listed = λ t h. ground arith;
      queued = λ t h ne. ground (arith, f.queued t);
      once = rw e tt;
    };
    runs = rw (e, eq→== k.idle_thread _ refl) refl;
  }
  | inr (x, xs, e) ↦ record {
    fair = record {
      alone = λ t h. ground (arith, none_runs t);
      listed = λ t h. ground (arith, f.listed t, f.once);
      queued = λ t h ne. ground (arith, f.queued t);
      once = rw e (rw e at f.once).1;
    };
    runs = rw (e, eq→== x x refl) refl;
  }
]

-- The current thread stops running: with a status that is not `ready`, or at the end of the list.
stop-IsFair :
    (k : Sched) (s : Status)
    → IsValid k
    → s ≢ running
    → s ≢ ready
    → IsFair (set_status k k.current s)
stop-IsFair k s v not_running not_ready = record {
  alone = λ t h. ground (arith, v.fair.alone t);
  listed = λ t h. ground (arith, v.fair.listed t, v.runs);
  queued = λ t h ne. ground (arith, v.fair.queued t);
  once = v.fair.once;
}

stopped_alone :
    (k : Sched) (s : Status)
    → IsValid k
    → s ≢ running
    → (t : ℕ) → (set_status k k.current s).status t ≢ running
stopped_alone k s v not_running t h = ground (arith, v.fair.alone t)

-- `thread_block` blocks the running thread and switches to the head of the ready list (the idle
-- thread if there is none), and the scheduler stays valid.
pub thread_block-IsValid :
    (k : Sched)
    → IsValid k
    → let k' = switched (set_status k k.current blocked) in (thread_block k ≡ ok k') × IsValid k'
unfolding thread_block
thread_block-IsValid k v = (
  schedule-switched (set_status k k.current blocked) (rw (eq→== k.current _ refl) refl),
  switched-IsValid (set_status k k.current blocked) (stop-IsFair k blocked v (λ e. cc) (λ e. cc))
      (stopped_alone k blocked v (λ e. cc)),
)

-- `thread_unblock` of a blocked thread puts it behind all ready threads, without a switch, and the
-- scheduler stays valid.
pub thread_unblock-IsValid :
    (k : Sched) (t : ℕ)
    → IsValid k
    → k.status t ≡ blocked
    → let k' = set_status (record k { ready_list = k.ready_list ++ (t ∷ []) }) t ready in
      (thread_unblock k t ≡ ok k') × IsValid k'
unfolding thread_unblock
thread_unblock-IsValid k t v h = (
  rw h refl,
  record {
    fair = record {
      alone = λ u e. ground (arith, v.fair.alone u);
      listed = λ u e. ground (arith, v.fair.listed u, mem-append u t k.ready_list);
      queued = λ u e ne. ground (arith, v.fair.queued u, mem-append u t k.ready_list);
      once = Nodup-append t k.ready_list v.fair.once (ground (arith, v.fair.listed t));
    };
    runs = ground (arith, v.runs);
  },
)

-- the ready list on which `thread_yield` leaves the running thread
abbrev pub requeued : Sched → List ℕ
requeued k = if k.current == k.idle_thread then k.ready_list else k.ready_list ++ (k.current ∷ [])

yield-IsFair :
    (k : Sched)
    → IsValid k
    → IsFair (set_status (record k { ready_list = requeued k }) k.current ready)
yield-IsFair k v = elim (Bool-cases (k.current == k.idle_thread)) [
  | inl idle ↦ record {
    alone = λ t h. ground (arith, v.fair.alone t);
    listed = λ t h. ground (arith, v.fair.listed t);
    queued = λ t h ne. ground (arith, v.fair.queued t);
    once = rw idle v.fair.once;
  }
  | inr busy ↦ record {
    alone = λ t h. ground (arith, v.fair.alone t);
    listed = λ t h. ground (arith, v.fair.listed t, mem-append t k.current k.ready_list);
    queued = λ t h ne. ground (arith, v.fair.queued t, mem-append t k.current k.ready_list);
    once = rw busy (
        Nodup-append k.current k.ready_list v.fair.once
          (ground (arith, v.fair.listed k.current, v.runs)));
  }
]

-- `thread_yield` puts the running thread behind all ready ones (but the idle thread on no list) and
-- switches to the head of the list, and the scheduler stays valid.
pub thread_yield-IsValid :
    (k : Sched)
    → IsValid k
    → let k' = switched (set_status (record k { ready_list = requeued k }) k.current ready) in
      (thread_yield k ≡ ok k') × IsValid k'
unfolding thread_yield
thread_yield-IsValid k v = (
  schedule-switched (set_status (record k { ready_list = requeued k }) k.current ready)
      (rw (eq→== k.current _ refl) refl),
  switched-IsValid (set_status (record k { ready_list = requeued k }) k.current ready)
      (yield-IsFair k v) (λ t h. ground (arith, v.fair.alone t)),
)

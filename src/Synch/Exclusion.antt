-- ===== src/Synch/Exclusion.antt =====
-- What holds in every reachable state of the threads that use a lock, step by step.
use project.Base.{
  List-cases, mem, Nodup, mem-append, Nodup-append, ℕ, ◌-◌, ◌≡◌, ◌≢◌, refl, ◌⊎◌, inl, inr, true,
  false, List, [], ◌∷◌, ◌++◌, arith, eq→==, add32,
}
use project.Paging.{null}
use project.Threads.{Sched, ready, blocked, set_status, head_or}
use project.Threads.Ready
use project.Threads.Ready.{switched, thread_block-IsValid, thread_unblock-IsValid}
use project.Synch.{Sema}
use project.Synch.Lock.{Stage, out, down, taken, held, releasing}
use project.Synch.Token.{Token, Token-free, Token-unique, Token-keep, Token-take, Token-give, moved}

-- No thread waits, or the semaphore is down, or a thread in the loop is awake to take it.
abbrev pub NoLostWakeup : Sched → Sema → (ℕ → Stage) → Type 0
NoLostWakeup k x stage =
    (x.waiters ≡ []) ⊎ (x.value ≡ 0) ⊎ ((t : ℕ) × (stage t ≡ down) × (k.status t ≢ blocked))

-- The invariant of a lock with semaphore `x` and holder `h`.
pub record IsSafe (k : Sched) (x : Sema) (h : ℕ) (stage : ℕ → Stage) : Type 0 where
  pub valid : Ready.IsValid k
  pub token : Token x.value stage
  pub holding : (t : ℕ) → stage t ≡ held → h ≡ t
  pub asleep : (t : ℕ) → mem t x.waiters ≡ true → k.status t ≡ blocked
  pub waiting : (t : ℕ) → mem t x.waiters ≡ true → stage t ≡ down
  pub once : Nodup x.waiters
  pub awake : (t : ℕ) → stage t ≡ down → k.status t ≡ blocked → mem t x.waiters ≡ true
  pub idle : stage k.idle_thread ≢ down
  pub alert : NoLostWakeup k x stage

module _ (k : Sched) (x : Sema) (h : ℕ) (stage : ℕ → Stage) where
  -- The current thread is not one that waits.
  current-awake : IsSafe k x h stage → mem k.current x.waiters ≡ false
  current-awake v = ground (arith, v.asleep k.current, v.valid.runs)

  alert-moved :
      (g : Stage)
      → NoLostWakeup k x stage
      → stage k.current ≢ down
      → NoLostWakeup k x (moved stage k.current g)
  alert-moved g alert ne = elim alert [
    | inl e ↦ inl e
    | inr (inl e) ↦ inr (inl e)
    | inr (inr (t, e, n)) ↦ inr (inr (t, ground (arith, e, ne), n))
  ]

  -- a call of `lock_acquire`
  pub enter-IsSafe :
      IsSafe k x h stage
      → stage k.current ≡ out
      → k.current ≢ k.idle_thread
      → IsSafe k x h (moved stage k.current down)
  enter-IsSafe v e ne = record {
    valid = v.valid;
    token = Token-keep x.value stage k.current down (rw e refl) v.token;
    holding = λ t p. ground (arith, v.holding t);
    asleep = v.asleep;
    waiting = λ t p. ground (arith, v.waiting t);
    once = v.once;
    awake = λ t p b. ground (arith, v.awake t, v.valid.runs);
    idle = ground (arith, v.idle);
    alert = alert-moved down v.alert (λ d. cc);
  }

  -- the current thread leaves the loop with the token
  pub pass-IsSafe :
      IsSafe k x h stage
      → stage k.current ≡ down
      → x.value ≢ 0
      → IsSafe k (record x { value = x.value - 1 }) h (moved stage k.current taken)
  pass-IsSafe v e ne = record {
    valid = v.valid;
    token = Token-take x.value stage k.current taken ne refl v.token;
    holding = λ t p. ground (arith, v.holding t);
    asleep = v.asleep;
    waiting = λ t p. ground (arith, v.waiting t, current-awake v);
    once = v.once;
    awake = λ t p b. ground (arith, v.awake t);
    idle = ground (arith, v.idle);
    alert = inr (inl (ground (arith, v.token)));
  }

  pub try-IsSafe :
      IsSafe k x h stage
      → stage k.current ≡ out
      → x.value ≢ 0
      → IsSafe k (record x { value = x.value - 1 }) k.current (moved stage k.current held)
  try-IsSafe v e ne = record {
    valid = v.valid;
    token = Token-take x.value stage k.current held ne refl v.token;
    holding = λ t p. ground (arith, Token-free x.value stage v.token ne t);
    asleep = v.asleep;
    waiting = λ t p. ground (arith, v.waiting t, current-awake v);
    once = v.once;
    awake = λ t p b. ground (arith, v.awake t);
    idle = ground (arith, v.idle);
    alert = inr (inl (ground (arith, v.token)));
  }

  pub take-IsSafe :
      IsSafe k x h stage
      → stage k.current ≡ taken
      → IsSafe k x k.current (moved stage k.current held)
  take-IsSafe v e = record {
    valid = v.valid;
    token = Token-keep x.value stage k.current held (rw e refl) v.token;
    holding = λ t p. ground (arith, Token-unique x.value stage v.token t k.current);
    asleep = v.asleep;
    waiting = λ t p. ground (arith, v.waiting t);
    once = v.once;
    awake = λ t p b. ground (arith, v.awake t);
    idle = ground (arith, v.idle);
    alert = alert-moved held v.alert (λ d. cc);
  }

  pub drop-IsSafe :
      IsSafe k x h stage
      → stage k.current ≡ held
      → IsSafe k x null (moved stage k.current releasing)
  drop-IsSafe v e = record {
    valid = v.valid;
    token = Token-keep x.value stage k.current releasing (rw e refl) v.token;
    holding = λ t p. ground (arith, Token-unique x.value stage v.token t k.current);
    asleep = v.asleep;
    waiting = λ t p. ground (arith, v.waiting t);
    once = v.once;
    awake = λ t p b. ground (arith, v.awake t);
    idle = ground (arith, v.idle);
    alert = alert-moved releasing v.alert (λ d. cc);
  }

  -- The thread that runs next was not waiting for the lock.
  next-free : IsSafe k x h stage → mem (head_or k.idle_thread k.ready_list) x.waiters ≡ false
  next-free v = elim (List-cases k.ready_list) [
    | inl e ↦ rw e (ground (arith, v.waiting k.idle_thread, v.idle))
    | inr (t, ts, e) ↦ rw e (ground (arith, v.asleep t, v.valid.fair.listed t))
  ]

  -- A thread that blocks in the loop does not run next.
  next-ne :
      IsSafe k x h stage → stage k.current ≡ down → head_or k.idle_thread k.ready_list ≢ k.current
  next-ne v e = elim (List-cases k.ready_list) [
    | inl empty ↦ rw empty (λ same. v.idle (rw same e))
    | inr (t, ts, full) ↦
        let status_t : k.status t ≡ ready =
          v.valid.fair.listed t (rw (full, eq→== t t refl) refl) in
        rw full (λ same. ground (arith, status_t, same, v.valid.runs))
  ]

  -- the current thread goes to sleep in the loop
  pub wait-IsSafe :
      IsSafe k x h stage
      → stage k.current ≡ down
      → x.value ≡ 0
      → IsSafe
          (switched (set_status k k.current blocked))
          (record x { waiters = x.waiters ++ (k.current ∷ []) })
          h
          (moved stage k.current down)
  wait-IsSafe v e zero_value = record {
    valid = (thread_block-IsValid k v.valid).1;
    token = Token-keep x.value stage k.current down (rw e refl) v.token;
    holding = λ t p. ground (arith, v.holding t);
    asleep = λ t p.
        ground (arith, v.asleep t, next-free v, mem-append t k.current x.waiters, next-ne v e);
    waiting = λ t p. ground (arith, v.waiting t, mem-append t k.current x.waiters);
    once = Nodup-append k.current x.waiters v.once (current-awake v);
    awake = λ t p b. ground (arith, v.awake t, mem-append t k.current x.waiters);
    idle = ground (arith, v.idle);
    alert = inr (inl zero_value);
  }

  -- `sema_up` at the end of `lock_release`, with no thread waiting
  pub raise-IsSafe :
      IsSafe k x h stage
      → stage k.current ≡ releasing
      → x.waiters ≡ []
      → IsSafe k (record x { value = add32 x.value 1 }) h (moved stage k.current out)
  raise-IsSafe v e empty = record {
    valid = v.valid;
    token = Token-give x.value stage k.current out (rw e refl) refl v.token;
    holding = λ t p. ground (arith, v.holding t);
    asleep = v.asleep;
    waiting = λ t p. ground (arith, v.waiting t);
    once = v.once;
    awake = λ t p b. ground (arith, v.awake t);
    idle = ground (arith, v.idle);
    alert = inl empty;
  }

  -- `sema_up` at the end of `lock_release`, which wakes `w`
  pub wake-IsSafe :
      (w : ℕ) (ws : List ℕ)
      → IsSafe k x h stage
      → stage k.current ≡ releasing
      → x.waiters ≡ w ∷ ws
      → IsSafe
          (set_status (record k { ready_list = k.ready_list ++ (w ∷ []) }) w ready)
          (record { value = add32 x.value 1; waiters = ws })
          h
          (moved stage k.current out)
  wake-IsSafe w ws v e full =
      let first : mem w x.waiters ≡ true = rw (full, eq→== w w refl) refl in
      let rest : mem w ws ≡ false = (rw full at v.once).0 in
      record {
        valid = (thread_unblock-IsValid k w v.valid (v.asleep w first)).1;
        token = Token-give x.value stage k.current out (rw e refl) refl v.token;
        holding = λ t p. ground (arith, v.holding t);
        asleep = λ t p. ground (arith, (rw full at v.asleep t), rest);
        waiting = λ t p. ground (arith, (rw full at v.waiting t));
        once = (rw full at v.once).1;
        awake = λ t p b. ground (arith, (rw full at v.awake t));
        idle = ground (arith, v.idle);
        alert = inr (inr (w, ground (arith, v.waiting w first, e), ground arith));
      }

-- ===== src/Synch/Safety.antt =====
-- Mutual exclusion of a lock, and no lost wake-up, in every state that its users reach.
use project.Base.{
  mem, List-cases, ℕ, ◌≡◌, refl, inl, inr, true, false, ok, arith, eq→==, ℕ_discrete,
}
use project.Paging.{null}
use project.Threads.{blocked}
use project.Synch.{
  Sync, down_pass, sema_try_down, sema_up, lock_take, lock_drop, lock_held_by_current_thread,
  set_holder,
}
use project.Synch.Lock.{
  out, down, taken, held, releasing, owns, System, current, go, Elsewhere, Step, enter, pass, wait,
  try, take, drop, up, other, IsInitial, Reach, here, next,
}
use project.Synch.Token.{Token-unique}
use project.Synch.Passes.{
  waited, passed, raised, woken, down_pass-waited, down_pass-passed, sema_try_down-passed,
  sema_try_down-failed, sema_up-raised, sema_up-woken,
}
use project.Synch.Exclusion.{
  NoLostWakeup, IsSafe, enter-IsSafe, pass-IsSafe, wait-IsSafe, try-IsSafe, take-IsSafe,
  drop-IsSafe, raise-IsSafe, wake-IsSafe,
}

-- the invariant of the lock at `l`
abbrev pub SafeAt : (l : ℕ) → System → Type 0
SafeAt l s = IsSafe s.sync.sched (s.sync.semas l) (s.sync.holders l) s.stage

module _ (l : ℕ) (s : System) (v : SafeAt l s) where
  pass-SafeAt :
      {σ : Sync}
      → s.stage (current s) ≡ down
      → down_pass s.sync l ≡ ok (true, σ)
      → SafeAt l (go s σ taken)
  pass-SafeAt {σ} e h = elim (ℕ_discrete (s.sync.semas l).value 0) [
    | yes zero_value ↦ let waits = down_pass-waited s.sync l v.valid zero_value in absurd cc
    | no ne ↦
        let passes = down_pass-passed s.sync l v.valid ne in
        let same : σ ≡ passed s.sync l = cc in
        rw (same, eq→== l l refl) (pass-IsSafe s.sync.sched (s.sync.semas l) _ s.stage v e ne)
  ]

  wait-SafeAt :
      {σ : Sync}
      → s.stage (current s) ≡ down
      → down_pass s.sync l ≡ ok (false, σ)
      → SafeAt l (go s σ down)
  wait-SafeAt {σ} e h = elim (ℕ_discrete (s.sync.semas l).value 0) [
    | yes zero_value ↦
        let waits = down_pass-waited s.sync l v.valid zero_value in
        let same : σ ≡ waited s.sync l = cc in
        rw (same, eq→== l l refl)
          (wait-IsSafe s.sync.sched (s.sync.semas l) _ s.stage v e zero_value)
    | no ne ↦ let passes = down_pass-passed s.sync l v.valid ne in absurd cc
  ]

  try-SafeAt :
      {σ : Sync}
      → s.stage (current s) ≡ out
      → sema_try_down s.sync l ≡ (true, σ)
      → SafeAt l (go s (lock_take σ l) held)
  unfolding lock_take
  try-SafeAt {σ} e h = elim (ℕ_discrete (s.sync.semas l).value 0) [
    | yes zero_value ↦ let fails = sema_try_down-failed s.sync l zero_value in absurd cc
    | no ne ↦
        let passes = sema_try_down-passed s.sync l ne in
        let same : σ ≡ passed s.sync l = cc in
        rw (same, eq→== l l refl) (try-IsSafe s.sync.sched (s.sync.semas l) _ s.stage v e ne)
  ]

  take-SafeAt : s.stage (current s) ≡ taken → SafeAt l (go s (lock_take s.sync l) held)
  unfolding lock_take
  take-SafeAt e = rw (eq→== l l refl) (take-IsSafe s.sync.sched (s.sync.semas l) _ s.stage v e)

  pub drop-SafeAt :
      {σ : Sync}
      → s.stage (current s) ≡ held
      → lock_drop s.sync l ≡ ok σ
      → SafeAt l (go s σ releasing)
  unfolding lock_drop lock_held_by_current_thread
  drop-SafeAt {σ} e h =
      let free : lock_drop s.sync l ≡ ok (set_holder s.sync l null) =
        rw (eq→== (s.sync.holders l) (current s) (v.holding (current s) e)) refl in
      let same : σ ≡ set_holder s.sync l null = cc in
      rw (same, eq→== l l refl) (drop-IsSafe s.sync.sched (s.sync.semas l) _ s.stage v e)

  up-SafeAt :
      {σ : Sync} → s.stage (current s) ≡ releasing → sema_up s.sync l ≡ ok σ → SafeAt l (go s σ out)
  up-SafeAt {σ} e h = elim (List-cases (s.sync.semas l).waiters) [
    | inl empty ↦
        let raises = sema_up-raised s.sync l empty in
        let same : σ ≡ raised s.sync l = cc in
        rw (same, eq→== l l refl) (raise-IsSafe s.sync.sched (s.sync.semas l) _ s.stage v e empty)
    | inr (w, ws, full) ↦
        let asleep : s.sync.sched.status w ≡ blocked =
          v.asleep w (rw (full, eq→== w w refl) refl) in
        let wakes = sema_up-woken s.sync l w ws v.valid full asleep in
        let same : σ ≡ woken s.sync l w ws = cc in
        rw (same, eq→== l l refl)
          (wake-IsSafe s.sync.sched (s.sync.semas l) _ s.stage w ws v e full)
  ]

  other-SafeAt :
      {σ : Sync}
      → Elsewhere l s.sync σ
      → ((t : ℕ) → s.stage t ≡ down → σ.sched.status t ≡ blocked → s.sync.sched.status t ≡ blocked)
      → SafeAt l (record { sync = σ; stage = s.stage })
  other-SafeAt {σ} els sleeps =
      rw (els.sema, els.holder)
        (record {
          valid = els.valid;
          token = v.token;
          holding = v.holding;
          asleep = els.asleep;
          waiting = v.waiting;
          once = v.once;
          awake = λ t p b. v.awake t p (sleeps t p b);
          idle = rw els.idle v.idle;
          alert = elim v.alert [
            | inl e ↦ inl e
            | inr (inl e) ↦ inr (inl e)
            | inr (inr (t, e, n)) ↦ inr (inr (t, e, λ b. n (sleeps t e b)))
          ];
        })

Step-SafeAt : {l : ℕ} {s s' : System} → Step l s s' → SafeAt l s → SafeAt l s'
Step-SafeAt (enter e ne ready_to_take) v = enter-IsSafe _ _ _ _ v e ne
Step-SafeAt {l} {s} (pass e h) v = pass-SafeAt l s v e h
Step-SafeAt {l} {s} (wait e h) v = wait-SafeAt l s v e h
Step-SafeAt {l} {s} (try e ready_to_take h) v = try-SafeAt l s v e h
Step-SafeAt {l} {s} (take e) v = take-SafeAt l s v e
Step-SafeAt {l} {s} (drop e h) v = drop-SafeAt l s v e h
Step-SafeAt {l} {s} (up e h) v = up-SafeAt l s v e h
Step-SafeAt {l} {s} (other els sleeps) v = other-SafeAt l s v els sleeps

IsInitial-SafeAt : {l : ℕ} {s : System} → IsInitial l s → SafeAt l s
IsInitial-SafeAt {l} {s} i = rw i.sema (record {
  valid = i.valid;
  token = inl (refl, λ t. rw (i.outside t) refl);
  holding = λ t h. ground (arith, i.outside t);
  asleep = λ t h. ground arith;
  waiting = λ t h. ground arith;
  once = tt;
  awake = λ t h b. ground (arith, i.outside t);
  idle = ground (arith, i.outside s.sync.sched.idle_thread);
  alert = inl refl;
})

pub Reach-SafeAt : {l : ℕ} {a s : System} → IsInitial l a → Reach l a s → SafeAt l s
Reach-SafeAt i here = IsInitial-SafeAt i
Reach-SafeAt i (next r step) = Step-SafeAt step (Reach-SafeAt i r)

-- In every state that threads reach from a free lock, however their steps and those of other code
-- interleave: two threads that are behind `sema_down` and before the `sema_up` of `lock_release`
-- are the same thread, and a thread whose `lock_acquire` has returned is the lock's `holder`.
pub Reach-exclusive :
    {l : ℕ} {a s : System}
    → IsInitial l a
    → Reach l a s
    → ((t u : ℕ) → owns (s.stage t) ≡ true → owns (s.stage u) ≡ true → t ≡ u)
      × ((t : ℕ) → s.stage t ≡ held → s.sync.holders l ≡ t)
Reach-exclusive i r = let v = Reach-SafeAt i r in (Token-unique _ _ v.token, v.holding)

-- In every state that threads reach from a free lock, a thread that sleeps in the loop of
-- `sema_down` is on the semaphore's list of waiters; and while the list has a thread on it, the
-- semaphore is down, or some thread in the loop is awake: no wake-up is lost.
pub Reach-alert :
    {l : ℕ} {a s : System}
    → IsInitial l a
    → Reach l a s
    → ((t : ℕ)
        → s.stage t ≡ down
        → s.sync.sched.status t ≡ blocked
        → mem t (s.sync.semas l).waiters ≡ true)
      × NoLostWakeup s.sync.sched (s.sync.semas l) s.stage
Reach-alert i r = let v = Reach-SafeAt i r in (v.awake, v.alert)

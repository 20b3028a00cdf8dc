-- ===== src/Synch/Passes.antt =====
-- What the steps of a semaphore come to in a valid state.
use project.Base.{
  ℕ, ◌-◌, ◌≡◌, ◌≢◌, refl, ap, ◌∙◌, ◌>>=◌, true, false, List, [], ◌∷◌, ◌++◌, Outcome, ok, arith,
  eq→==, ne→==, add32, lt→ltb,
}
use project.Threads.{Sched, blocked, ready, set_status}
use project.Threads.Ready
use project.Threads.Ready.{switched, thread_block-IsValid, thread_unblock-IsValid}
use project.Synch.{Sync, set_sema, down_pass, sema_try_down, sema_up, wake_first}

module _ (σ : Sync) (l : ℕ) where
  -- the running thread waits at the end of the queue
  abbrev pub waited : Sync
  waited =
      record (set_sema σ l
        (record (σ.semas l) { waiters = (σ.semas l).waiters ++ (σ.sched.current ∷ []) })) {
          sched = switched (set_status σ.sched σ.sched.current blocked);
        }

  abbrev pub passed : Sync
  passed = set_sema σ l (record (σ.semas l) { value = (σ.semas l).value - 1 })

  pub down_pass-waited :
      Ready.IsValid σ.sched → (σ.semas l).value ≡ 0 → down_pass σ l ≡ ok (false, waited)
  unfolding down_pass
  down_pass-waited v e = rw ((thread_block-IsValid σ.sched v).0, e) refl

  pub down_pass-passed :
      Ready.IsValid σ.sched → (σ.semas l).value ≢ 0 → down_pass σ l ≡ ok (true, passed)
  unfolding down_pass
  down_pass-passed v ne = rw ((thread_block-IsValid σ.sched v).0, ne→== (σ.semas l).value 0 ne) refl

  pub sema_try_down-passed : (σ.semas l).value ≢ 0 → sema_try_down σ l ≡ (true, passed)
  unfolding sema_try_down
  sema_try_down-passed ne = rw (lt→ltb 0 (σ.semas l).value (omega arith)) refl

  pub sema_try_down-failed : (σ.semas l).value ≡ 0 → sema_try_down σ l ≡ (false, σ)
  unfolding sema_try_down
  sema_try_down-failed e = rw e refl

  -- `sema_up` with nobody waiting
  abbrev pub raised : Sync
  raised = set_sema σ l (record (σ.semas l) { value = add32 (σ.semas l).value 1 })

  -- the end of `sema_up`
  abbrev raise : Sync → Outcome Sync
  raise ρ = ok (set_sema ρ l (record (ρ.semas l) { value = add32 (ρ.semas l).value 1 }))

  pub sema_up-raised : (σ.semas l).waiters ≡ [] → sema_up σ l ≡ ok raised
  unfolding sema_up
  sema_up-raised e = ap (λ ws. wake_first σ l ws >>= raise) e

  -- `sema_up` that wakes `t`, with `ts` waiting behind it, before it raises the value
  abbrev wake : Sched → List ℕ → Sync
  wake k ts = record (set_sema σ l (record (σ.semas l) { waiters = ts })) { sched = k }

  abbrev pub roused : ℕ → List ℕ → Sync
  roused t ts =
      wake (set_status (record σ.sched { ready_list = σ.sched.ready_list ++ (t ∷ []) }) t ready) ts

  abbrev pub woken : ℕ → List ℕ → Sync
  woken t ts =
      set_sema (roused t ts) l
        (record ((roused t ts).semas l) { value = add32 ((roused t ts).semas l).value 1 })

  pub sema_up-woken :
      (t : ℕ) (ts : List ℕ)
      → Ready.IsValid σ.sched
      → (σ.semas l).waiters ≡ t ∷ ts
      → σ.sched.status t ≡ blocked
      → sema_up σ l ≡ ok (woken t ts)
  unfolding sema_up
  sema_up-woken t ts v e h =
      ap (λ ws. wake_first σ l ws >>= raise) e
      ∙ ap (λ m. (m >>= λ k. ok (wake k ts)) >>= raise) (thread_unblock-IsValid σ.sched t v h).0

  pub semas-woken :
      (t : ℕ) (ts : List ℕ)
      → (woken t ts).semas l ≡ record { value = add32 (σ.semas l).value 1; waiters = ts }
  semas-woken t ts = rw (eq→== l l refl) refl

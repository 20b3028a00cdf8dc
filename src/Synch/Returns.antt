-- ===== src/Synch/Returns.antt =====
-- What the threads that use a lock do next returns, in every state that they reach.
use project.Base.{
  List-cases, ℕ, ◌≡◌, ◌≢◌, refl, sym, ap, ◌∙◌, inl, inr, Bool, true, false, ok, panic,
  if◌then◌else◌, eq→==, ne→==, ℕ_discrete, add32,
}
use project.Paging.{null}
use project.Threads.{blocked}
use project.Synch.{
  Sync, down_pass, sema_try_down, sema_up, lock_take, lock_acquire_check, lock_try_acquire,
  lock_release, lock_drop, lock_held_by_current_thread, set_holder,
}
use project.Synch.Lock.{
  Stage, out, down, taken, held, releasing, owns, System, current, go, Step, enter, pass, wait, try,
  take, drop, up, other, IsInitial, Reach, here, next,
}
use project.Synch.Token.{Token-free}
use project.Synch.Passes.{
  waited, passed, raised, woken, down_pass-waited, down_pass-passed, sema_try_down-passed,
  sema_try_down-failed, sema_up-raised, sema_up-woken,
}
use project.Synch.Safety.{SafeAt, drop-SafeAt, Reach-SafeAt}

-- What the steps of the current thread return.
module _ (l : ℕ) (s : System) (v : SafeAt l s) where
  down_pass-returns : (passes : Bool) × (σ : Sync) × (down_pass s.sync l ≡ ok (passes, σ))
  down_pass-returns = elim (ℕ_discrete (s.sync.semas l).value 0) [
    | yes zero_value ↦ (false, waited s.sync l, down_pass-waited s.sync l v.valid zero_value)
    | no ne ↦ (true, passed s.sync l, down_pass-passed s.sync l v.valid ne)
  ]

  sema_up-returns :
      (σ : Sync) × (sema_up s.sync l ≡ ok σ)
      × ((σ.semas l).value ≡ add32 (s.sync.semas l).value 1)
      × (σ.holders l ≡ s.sync.holders l)
  sema_up-returns = elim (List-cases (s.sync.semas l).waiters) [
    | inl empty ↦ (raised s.sync l, sema_up-raised s.sync l empty, rw (eq→== l l refl) refl, refl)
    | inr (w, ws, full) ↦
        let asleep : s.sync.sched.status w ≡ blocked =
          v.asleep w (rw (full, eq→== w w refl) refl) in
        (
          woken s.sync l w ws,
          sema_up-woken s.sync l w ws v.valid full asleep,
          rw (eq→== l l refl) refl,
          refl,
        )
  ]

  lock_drop-returns :
      s.stage (current s) ≡ held → lock_drop s.sync l ≡ ok (set_holder s.sync l null)
  unfolding lock_drop lock_held_by_current_thread
  lock_drop-returns e = rw (eq→== (s.sync.holders l) (current s) (v.holding (current s) e)) refl

owned :
    {l : ℕ} (s : System)
    → SafeAt l s
    → (t : ℕ) → owns (s.stage t) ≡ true
    → (s.sync.semas l).value ≡ 0
owned {l} s v t h = elim (ℕ_discrete (s.sync.semas l).value 0) [
  | yes e ↦ e
  | no ne ↦ let free = Token-free (s.sync.semas l).value s.stage v.token ne t in absurd cc
]

lock_release-returns :
    (l : ℕ) (s : System)
    → SafeAt l s
    → s.stage (current s) ≡ held
    → (σ : Sync) × (lock_release s.sync l ≡ ok σ) × ((σ.semas l).value ≡ 1) × (σ.holders l ≡ null)
unfolding lock_release
lock_release-returns l s v e =
    let drops = lock_drop-returns l s v e in
    let after = drop-SafeAt l s v e drops in
    let (σ, ups, raised_to, holder) =
      sema_up-returns l (go s (set_holder s.sync l null) releasing) after in
    let zero_value = owned s v (current s) (rw e refl) in
    rw drops (
      σ,
      ups,
      raised_to ∙ ap (λ n. add32 n 1) zero_value,
      holder ∙ ap (λ b. if b then null else s.sync.holders l) (eq→== l l refl),
    )

-- a thread that stands as the holder has come back from `lock_acquire`
abbrev HolderAt : (l : ℕ) → System → Type 0
HolderAt l s = (t : ℕ) → t ≢ null → s.sync.holders l ≡ t → s.stage t ≡ held

-- a step of a thread that is not the holder, and leaves the holder as it is
go-HolderAt :
    (l : ℕ) (s : System) (σ : Sync) (g : Stage)
    → HolderAt l s
    → s.stage (current s) ≢ held
    → σ.holders l ≡ s.sync.holders l
    → HolderAt l (go s σ g)
go-HolderAt l s σ g h n same t some e = elim (ℕ_discrete t (current s)) [
  | yes mine ↦ absurd (n (ap s.stage (sym mine) ∙ h t some (sym same ∙ e)))
  | no ne ↦ rw (ne→== t (current s) ne) (h t some (sym same ∙ e))
]

-- a step that makes the current thread the holder
take-HolderAt : (l : ℕ) (s : System) (σ : Sync) → σ.holders l ≡ current s → HolderAt l (go s σ held)
take-HolderAt l s σ mine t some e = rw (eq→== t (current s) (sym e ∙ mine)) refl

module _ (l : ℕ) (s : System) (v : SafeAt l s) where
  pass-holders :
      {passes : Bool} {σ : Sync}
      → down_pass s.sync l ≡ ok (passes, σ)
      → σ.holders l ≡ s.sync.holders l
  pass-holders {passes} {σ} h = elim (ℕ_discrete (s.sync.semas l).value 0) [
    | yes zero_value ↦
        let waits = down_pass-waited s.sync l v.valid zero_value in
        let same : σ ≡ waited s.sync l = cc in ap (λ x. x.holders l) same
    | no ne ↦
        let passes_by = down_pass-passed s.sync l v.valid ne in
        let same : σ ≡ passed s.sync l = cc in ap (λ x. x.holders l) same
  ]

  up-holders : {σ : Sync} → sema_up s.sync l ≡ ok σ → σ.holders l ≡ s.sync.holders l
  up-holders {σ} h =
      let (ρ, ups, _, holder) = sema_up-returns l s v in
      let same : σ ≡ ρ = cc in ap (λ x. x.holders l) same ∙ holder

  try-current : {σ : Sync} → sema_try_down s.sync l ≡ (true, σ) → σ.sched.current ≡ current s
  try-current {σ} h = elim (ℕ_discrete (s.sync.semas l).value 0) [
    | yes zero_value ↦ let fails = sema_try_down-failed s.sync l zero_value in absurd cc
    | no ne ↦
        let passes = sema_try_down-passed s.sync l ne in
        let same : σ ≡ passed s.sync l = cc in ap (λ x. x.sched.current) same
  ]

  drop-holders :
      {σ : Sync} → s.stage (current s) ≡ held → lock_drop s.sync l ≡ ok σ → σ.holders l ≡ null
  drop-holders {σ} e h =
      let drops = lock_drop-returns l s v e in
      let same : σ ≡ set_holder s.sync l null = cc in
      ap (λ x. x.holders l) same ∙ rw (eq→== l l refl) refl

lock_take-holder : (σ : Sync) (l : ℕ) → (lock_take σ l).holders l ≡ σ.sched.current
unfolding lock_take
lock_take-holder σ l = rw (eq→== l l refl) refl

Step-HolderAt : {l : ℕ} {s s' : System} → Step l s s' → SafeAt l s → HolderAt l s → HolderAt l s'
Step-HolderAt {l} {s} (enter e ne check) v h = go-HolderAt l s s.sync down h (λ x. cc) refl
Step-HolderAt {l} {s} (pass {σ} e step) v h =
    go-HolderAt l s σ taken h (λ x. cc) (pass-holders l s v step)
Step-HolderAt {l} {s} (wait {σ} e step) v h =
    go-HolderAt l s σ down h (λ x. cc) (pass-holders l s v step)
Step-HolderAt {l} {s} (try {σ} e check step) v h =
    take-HolderAt l s (lock_take σ l) (lock_take-holder σ l ∙ try-current l s v step)
Step-HolderAt {l} {s} (take e) v h =
    take-HolderAt l s (lock_take s.sync l) (lock_take-holder s.sync l)
Step-HolderAt {l} {s} (drop {σ} e step) v h =
    λ t some x. absurd (some (sym x ∙ drop-holders l s v e step))
Step-HolderAt {l} {s} (up {σ} e step) v h =
    go-HolderAt l s σ out h (λ x. cc) (up-holders l s v step)
Step-HolderAt {l} {s} (other {σ} els sleeps) v h = λ t some x. h t some (sym els.holder ∙ x)

Reach-HolderAt :
    {l : ℕ} {a s : System} → IsInitial l a → a.sync.holders l ≡ null → Reach l a s → HolderAt l s
Reach-HolderAt i free here = λ t some e. absurd (some (sym e ∙ free))
Reach-HolderAt i free (next r step) =
    Step-HolderAt step (Reach-SafeAt i r) (Reach-HolderAt i free r)

-- What the current thread may do next, by where it is with respect to the lock. A holder that calls
-- `lock_acquire` stops the kernel.
abbrev pub NextReturns : (l : ℕ) → System → Stage → Type 0
NextReturns l s out =
    (lock_acquire_check s.sync l ≡ ok tt)
    × ((success : Bool) × (σ : Sync) × (lock_try_acquire s.sync l ≡ ok (success, σ)))
NextReturns l s down = (passes : Bool) × (σ : Sync) × (down_pass s.sync l ≡ ok (passes, σ))
NextReturns l s taken = (lock_take s.sync l).holders l ≡ current s
NextReturns l s held =
    (lock_acquire_check s.sync l ≡ panic)
    × ((σ : Sync) × (lock_release s.sync l ≡ ok σ) × ((σ.semas l).value ≡ 1) × (σ.holders l ≡ null))
NextReturns l s releasing = (σ : Sync) × (sema_up s.sync l ≡ ok σ)

module _ (l : ℕ) (s : System) (v : SafeAt l s) (h : HolderAt l s) (some : current s ≢ null) where
  check_passes : s.stage (current s) ≡ out → lock_acquire_check s.sync l ≡ ok tt
  unfolding lock_acquire_check lock_held_by_current_thread
  check_passes e =
      let not_mine : s.sync.holders l ≢ current s =
        λ mine. let stays = h (current s) some mine in cc in
      rw (ne→== (s.sync.holders l) (current s) not_mine) refl

  check_fails : s.stage (current s) ≡ held → lock_acquire_check s.sync l ≡ panic
  unfolding lock_acquire_check lock_held_by_current_thread
  check_fails e = rw (eq→== (s.sync.holders l) (current s) (v.holding (current s) e)) refl

  try_returns :
      s.stage (current s) ≡ out
      → (success : Bool) × (σ : Sync) × (lock_try_acquire s.sync l ≡ ok (success, σ))
  unfolding lock_try_acquire
  try_returns e =
      let (success, σ) = sema_try_down s.sync l in
      (success, if success then lock_take σ l else σ, rw (check_passes e) refl)

  next_returns : (g : Stage) → s.stage (current s) ≡ g → NextReturns l s g
  next_returns out e = (check_passes e, try_returns e)
  next_returns down e = down_pass-returns l s v
  next_returns taken e = lock_take-holder s.sync l
  next_returns held e = (check_fails e, lock_release-returns l s v e)
  next_returns releasing e = let (σ, ups, _, _) = sema_up-returns l s v in (σ, ups)

-- In every state that threads reach from a lock without holder, no assertion fails in what the
-- current thread (at an address other than null) does next at the lock: the assertion of
-- `lock_acquire` holds and `lock_try_acquire` returns for a thread outside, the pass of `sema_down`
-- returns for one in its loop, `lock_take` makes the thread behind it the holder, `lock_release` by
-- the holder returns and leaves the semaphore at 1 and no holder, and `sema_up` returns for one in
-- `lock_release`. Only the assertion of `lock_acquire` fails for the holder.
pub Reach-returns :
    {l : ℕ} {a s : System}
    → IsInitial l a
    → a.sync.holders l ≡ null
    → Reach l a s
    → current s ≢ null
    → NextReturns l s (s.stage (current s))
Reach-returns {l} {s = s} i free r some =
    next_returns l s (Reach-SafeAt i r) (Reach-HolderAt i free r) some (s.stage (current s)) refl

-- ===== src/Intq.antt =====
-- devices/intq.c: the circular queue of bytes that kernel threads share with interrupt handlers.
-- Interrupts are off inside each function but where it blocks, so each is one step up to the switch
-- to another thread.
pub mod Ring
pub mod Refine
mod Tests
use project.Base.{
  ℕ, ◌+◌, ◌%◌, Bool, true, false, not, List, [], ◌∷◌, Outcome, ok, assert, ◌>>=◌, ◌>>◌, ◌==◌,
  if◌then◌else◌,
}
use project.Paging.{null}
use project.Threads.{Sched, thread_block, thread_unblock}

-- `INTQ_BUFSIZE`
abbrev pub bufsize : ℕ
bufsize = 64

-- `struct intq` without its lock, which is one of the locks of threads/synch.c
pub record Intq : Type 0 where
  pub not_full : ℕ
  pub not_empty : ℕ
  pub buf : ℕ → ℕ
  pub head : ℕ
  pub tail : ℕ

-- the queue with what its functions read of the processor: whether interrupts are off, and whether
-- an external interrupt is being handled (`intr_context`)
pub record State : Type 0 where
  pub queue : Intq
  pub sched : Sched
  pub intr_off : Bool
  pub intr_context : Bool

-- the position after `pos`
abbrev pub next : ℕ → ℕ
next pos = (pos + 1) % bufsize

unfoldable pub intq_init : Intq → Intq
intq_init q = record q { not_full = null; not_empty = null; head = 0; tail = 0 }

unfoldable pub intq_empty : State → Outcome Bool
intq_empty s = do assert s.intr_off; ok (s.queue.head == s.queue.tail)

unfoldable pub intq_full : State → Outcome Bool
intq_full s = do assert s.intr_off; ok (next s.queue.head == s.queue.tail)

-- `signal (q, &q->not_full)`
unfoldable pub signal_not_full : State → Outcome State
unfolding intq_full
signal_not_full s = do
  assert s.intr_off
  full ← intq_full s
  assert (not full)
  let wake = (do
    k ← thread_unblock s.sched s.queue.not_full
    ok (record s { queue = record (s.queue) { not_full = null }; sched = k }))
  if s.queue.not_full == null then ok s else wake

-- `signal (q, &q->not_empty)`
unfoldable pub signal_not_empty : State → Outcome State
unfolding intq_empty
signal_not_empty s = do
  assert s.intr_off
  empty ← intq_empty s
  assert (not empty)
  let wake = (do
    k ← thread_unblock s.sched s.queue.not_empty
    ok (record s { queue = record (s.queue) { not_empty = null }; sched = k }))
  if s.queue.not_empty == null then ok s else wake

-- `wait (q, &q->not_empty)`, up to the switch in `thread_block`
unfoldable pub wait_not_empty : State → Outcome State
unfolding intq_empty
wait_not_empty s = do
  assert (not s.intr_context)
  assert s.intr_off
  empty ← intq_empty s
  assert empty
  k ← thread_block s.sched
  ok (record s { queue = record (s.queue) { not_empty = s.sched.current }; sched = k })

-- `wait (q, &q->not_full)`, up to the switch in `thread_block`
unfoldable pub wait_not_full : State → Outcome State
unfolding intq_full
wait_not_full s = do
  assert (not s.intr_context)
  assert s.intr_off
  full ← intq_full s
  assert full
  k ← thread_block s.sched
  ok (record s { queue = record (s.queue) { not_full = s.sched.current }; sched = k })

-- The test of the loop of `intq_getc` and the assertion behind it: false where the loop is over, true
-- where the thread goes on to `lock_acquire`, `wait_not_empty` and `lock_release`.
unfoldable pub getc_test : State → Outcome Bool
unfolding intq_empty
getc_test s = do
  empty ← intq_empty s
  let sleep = (do assert (not s.intr_context); ok true)
  if empty then sleep else ok false

-- what follows the loop of `intq_getc`
unfoldable pub getc_take : State → Outcome (ℕ × State)
unfolding signal_not_full
getc_take s = do
  let byte = s.queue.buf s.queue.tail
  s' ← signal_not_full (record s { queue = record (s.queue) { tail = next s.queue.tail } })
  ok (byte, s')

-- the like of `getc_test` in `intq_putc`
unfoldable pub putc_test : State → Outcome Bool
unfolding intq_full
putc_test s = do
  full ← intq_full s
  let sleep = (do assert (not s.intr_context); ok true)
  if full then sleep else ok false

-- what follows the loop of `intq_putc`
unfoldable pub putc_put : State → (byte : ℕ) → Outcome State
unfolding signal_not_empty
putc_put s byte =
    let q = s.queue in
    signal_not_empty (record s {
      queue = record q { buf = λ i. if i == q.head then byte else q.buf i; head = next q.head };
    })

-- `intq_getc` in an interrupt handler, which never sleeps
unfoldable pub intq_getc : State → Outcome (ℕ × State)
unfolding getc_test getc_take
intq_getc s = do assert s.intr_off; sleep ← getc_test s; assert (not sleep); getc_take s

-- `intq_putc`, likewise
unfoldable pub intq_putc : State → (byte : ℕ) → Outcome State
unfolding putc_test putc_put
intq_putc s byte = do assert s.intr_off; sleep ← putc_test s; assert (not sleep); putc_put s byte

-- calls from interrupt handlers
pub data Call : Type 0 where
  putc : (byte : ℕ) → Call
  getc : Call

-- the bytes that a run of calls gets
unfoldable pub calls : State → List Call → Outcome (List ℕ × State)
unfolding intq_getc intq_putc
calls s [] = ok ([], s)
calls s (putc byte ∷ cs) = do s' ← intq_putc s byte; calls s' cs
calls s (getc ∷ cs) = do (byte, s1) ← intq_getc s; (bytes, s2) ← calls s1 cs; ok (byte ∷ bytes, s2)

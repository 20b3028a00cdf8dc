-- ===== src/Intq/Tests.antt =====
-- A queue of two bytes, with a thread asleep until there is room.
use project.Base.{
  ℕ, ◌+◌, ◌%◌, ◌<◌, get_or, ◌≡◌, refl, true, false, List, [], ◌∷◌, ok, arith, ◌==◌, if◌then◌else◌,
  zero, suc,
}
use project.Threads.{running, blocked}
use project.Intq.{State, Call, putc, getc, calls, intq_getc, intq_putc}
use project.Intq.Ring.{with_byte}
use project.Intq.Refine.{
  IsQueue, room_signalled, bytes_signalled, calls-answers, intq_getc-IsQueue, intq_putc-IsQueue,
}

-- thread 10 runs, and 20 sleeps; the bytes stand at 63 and 0
abbrev two_bytes : State
two_bytes = record {
  queue = record {
    not_full = 20;
    not_empty = 0;
    buf = λ i. if i == 63 then 65 else 66;
    head = 1;
    tail = 63;
  };
  sched = record {
    status = λ t. if t == 10 then running else blocked;
    ready_list = [];
    current = 10;
    idle_thread = 1;
    thread_ticks = 0;
    idle_ticks = 0;
    user_ticks = 0;
    kernel_ticks = 0;
    yield_on_return = false;
  };
  intr_off = true;
  intr_context = true;
}

bytes-get : (i : ℕ) → i < 2 → two_bytes.queue.buf ((63 + i) % 64) ≡ get_or (65 ∷ 66 ∷ []) i 0
bytes-get zero h = refl
bytes-get (suc zero) h = refl
bytes-get (suc (suc i)) h = absurd (omega (arith, h))

two_bytes-IsQueue : IsQueue two_bytes (65 ∷ 66 ∷ [])
two_bytes-IsQueue = record {
  contents = record {
    tail_bound = omega arith;
    head_at = refl;
    room = omega arith;
    bytes = bytes-get;
  };
  waiting = record {
    for_room = λ n. refl;
    for_bytes = λ n. absurd (n refl);
    apart = λ n e. ground (arith, e);
  };
  off = refl;
}

abbrev some_calls : List Call
some_calls = getc ∷ putc 67 ∷ getc ∷ getc ∷ putc 68 ∷ []

calls-answers_example :
    (s' : State) × (calls two_bytes some_calls ≡ ok (65 ∷ 66 ∷ 67 ∷ [], s')) × IsQueue s' (68 ∷ [])
calls-answers_example = calls-answers some_calls two_bytes (65 ∷ 66 ∷ []) two_bytes-IsQueue refl

intq_getc_run :
    let s' = room_signalled (record two_bytes { queue = record (two_bytes.queue) { tail = 0 } }) in
    (intq_getc two_bytes ≡ ok (65, s')) × IsQueue s' (66 ∷ [])
intq_getc_run = intq_getc-IsQueue two_bytes 65 (66 ∷ []) two_bytes-IsQueue

intq_putc_run :
    let s' = bytes_signalled (record two_bytes { queue = with_byte (two_bytes.queue) 67 }) in
    (intq_putc two_bytes 67 ≡ ok s') × IsQueue s' (65 ∷ 66 ∷ 67 ∷ [])
intq_putc_run = intq_putc-IsQueue two_bytes (65 ∷ 66 ∷ []) 67 two_bytes-IsQueue (omega arith)

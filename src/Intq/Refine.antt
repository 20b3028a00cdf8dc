-- ===== src/Intq/Refine.antt =====
-- devices/intq.c as a queue: each call does to the bytes what it says, wakes the thread that waits
-- for it, and any run of calls from interrupt handlers returns what a queue returns.
use project.Base.{
  ℕ, ◌≡◌, ◌≢◌, refl, ap, ◌∙◌, Bool, true, false, not, ◌&&◌, List, [], ◌∷◌, ◌++◌, length, arith, ok,
  ◌>>=◌, ◌==◌, if◌then◌else◌, ne→==, Bool-cases, length-append, inl, inr,
}
use project.Paging.{null}
use project.Threads.{ready, Sched, set_status, thread_unblock}
use project.Intq.{
  Intq, State, next, intq_empty, intq_full, signal_not_full, signal_not_empty, getc_test, getc_take,
  putc_test, putc_put, intq_getc, intq_putc, Call, putc, getc, calls,
}
use project.Intq.Ring.{
  Holds, Waiting, empty-length, full-length, with_byte, with_byte-Holds, without_byte-Holds,
}

-- The queue holds `xs`, its waiting threads are blocked, and interrupts are off.
pub record IsQueue (s : State) (xs : List ℕ) : Type 0 where
  pub contents : Holds s.queue xs
  pub waiting : Waiting s
  pub off : s.intr_off ≡ true

-- `waiter` made ready behind all ready threads
abbrev pub woken : Sched → (waiter : ℕ) → Sched
woken k waiter = set_status (record k { ready_list = k.ready_list ++ (waiter ∷ []) }) waiter ready

-- the state after `signal`: the thread that waits for room, if there is one, is ready
abbrev pub room_signalled : State → State
room_signalled s = if s.queue.not_full == null then s else record s {
  queue = record (s.queue) { not_full = null };
  sched = woken s.sched s.queue.not_full;
}

abbrev pub bytes_signalled : State → State
bytes_signalled s = if s.queue.not_empty == null then s else record s {
  queue = record (s.queue) { not_empty = null };
  sched = woken s.sched s.queue.not_empty;
}

room_signalled-IsQueue : (s : State) (xs : List ℕ) → IsQueue s xs → IsQueue (room_signalled s) xs
room_signalled-IsQueue s xs i = elim (Bool-cases (s.queue.not_full == null)) [
  | inl e ↦ rw e i
  | inr e ↦ rw e (record {
    contents = record {
      tail_bound = i.contents.tail_bound;
      head_at = i.contents.head_at;
      room = i.contents.room;
      bytes = i.contents.bytes;
    };
    waiting = record {
      for_room = λ n. absurd (n refl);
      for_bytes = λ n. ground (arith, e, i.waiting.for_bytes n, i.waiting.apart);
      apart = λ n. absurd (n refl);
    };
    off = i.off;
  })
]

bytes_signalled-IsQueue : (s : State) (xs : List ℕ) → IsQueue s xs → IsQueue (bytes_signalled s) xs
bytes_signalled-IsQueue s xs i = elim (Bool-cases (s.queue.not_empty == null)) [
  | inl e ↦ rw e i
  | inr e ↦ rw e (record {
    contents = record {
      tail_bound = i.contents.tail_bound;
      head_at = i.contents.head_at;
      room = i.contents.room;
      bytes = i.contents.bytes;
    };
    waiting = record {
      for_room = λ n. ground (arith, e, i.waiting.for_room n, i.waiting.apart n);
      for_bytes = λ n. absurd (n refl);
      apart = λ n. n;
    };
    off = i.off;
  })
]

signal_not_full-signalled :
    (s : State) (xs : List ℕ)
    → IsQueue s xs
    → length xs ≢ 63
    → signal_not_full s ≡ ok (room_signalled s)
unfolding signal_not_full intq_full thread_unblock
signal_not_full-signalled s xs i n =
    let full = full-length s.queue xs i.contents ∙ ne→== (length xs) 63 n in
    elim (Bool-cases (s.queue.not_full == null)) [
      | inl e ↦ rw (i.off, full, e) refl
      | inr e ↦ rw (i.off, full, e, i.waiting.for_room (λ z. ground (arith, z, e))) refl
    ]

signal_not_empty-signalled :
    (s : State) (xs : List ℕ)
    → IsQueue s xs
    → length xs ≢ 0
    → signal_not_empty s ≡ ok (bytes_signalled s)
unfolding signal_not_empty intq_empty thread_unblock
signal_not_empty-signalled s xs i n =
    let empty = empty-length s.queue xs i.contents ∙ ne→== (length xs) 0 n in
    elim (Bool-cases (s.queue.not_empty == null)) [
      | inl e ↦ rw (i.off, empty, e) refl
      | inr e ↦ rw (i.off, empty, e, i.waiting.for_bytes (λ z. ground (arith, z, e))) refl
    ]

intq_getc-take : (s : State) (x : ℕ) (xs : List ℕ) → IsQueue s (x ∷ xs) → intq_getc s ≡ getc_take s
unfolding intq_getc getc_test intq_empty
intq_getc-take s x xs i =
    rw (i.off, empty-length s.queue (x ∷ xs) i.contents ∙ ne→== (length (x ∷ xs)) 0 (omega arith))
      refl

intq_putc-put :
    (s : State) (xs : List ℕ) (byte : ℕ)
    → IsQueue s xs
    → length xs ≢ 63
    → intq_putc s byte ≡ putc_put s byte
unfolding intq_putc putc_test intq_full
intq_putc-put s xs byte i n =
    rw (i.off, full-length s.queue xs i.contents, ne→== (length xs) 63 n) refl

oldest : (q : Intq) (x : ℕ) (xs : List ℕ) → Holds q (x ∷ xs) → q.buf q.tail ≡ x
oldest q x xs v = ap q.buf (omega (arith, v.tail_bound)) ∙ v.bytes 0 (omega arith)

-- `intq_getc` of a queue that is not empty returns its oldest byte, takes it out and wakes the thread
-- that waits for room.
pub intq_getc-IsQueue :
    (s : State) (x : ℕ) (xs : List ℕ)
    → IsQueue s (x ∷ xs)
    → let s' =
        room_signalled (record s { queue = record (s.queue) { tail = next s.queue.tail } }) in
      (intq_getc s ≡ ok (x, s')) × IsQueue s' xs
unfolding getc_take
intq_getc-IsQueue s x xs i =
    let s1 = record s { queue = record (s.queue) { tail = next s.queue.tail } } in
    let i1 : IsQueue s1 xs = record {
      contents = without_byte-Holds s.queue x xs i.contents;
      waiting = record {
        for_room = i.waiting.for_room;
        for_bytes = i.waiting.for_bytes;
        apart = i.waiting.apart;
      };
      off = i.off;
    } in
    (
      intq_getc-take s x xs i
          ∙ ap (λ r. r >>= (λ s'. ok (s.queue.buf s.queue.tail, s')))
              (signal_not_full-signalled s1 xs i1 (omega (arith, i.contents.room)))
          ∙ ap (λ b. ok (b, room_signalled s1)) (oldest s.queue x xs i.contents),
      room_signalled-IsQueue s1 xs i1,
    )

-- `intq_putc` to a queue of fewer than 63 bytes adds the byte behind the others and wakes the thread
-- that waits for one.
pub intq_putc-IsQueue :
    (s : State) (xs : List ℕ) (byte : ℕ)
    → IsQueue s xs
    → length xs ≢ 63
    → let s' = bytes_signalled (record s { queue = with_byte s.queue byte }) in
      (intq_putc s byte ≡ ok s') × IsQueue s' (xs ++ (byte ∷ []))
unfolding putc_put
intq_putc-IsQueue s xs byte i n =
    let s1 = record s { queue = with_byte s.queue byte } in
    let i1 : IsQueue s1 (xs ++ (byte ∷ [])) = record {
      contents = with_byte-Holds s.queue xs byte i.contents n;
      waiting = record {
        for_room = i.waiting.for_room;
        for_bytes = i.waiting.for_bytes;
        apart = i.waiting.apart;
      };
      off = i.off;
    } in
    (
      intq_putc-put s xs byte i n
          ∙ signal_not_empty-signalled s1 (xs ++ (byte ∷ [])) i1
              (omega (arith, length-append xs (byte ∷ []))),
      bytes_signalled-IsQueue s1 (xs ++ (byte ∷ [])) i1,
    )

-- a queue of at most 63 bytes: the bytes that a run of calls gets, and what it leaves
abbrev pub answers : List ℕ → List Call → List ℕ × List ℕ
answers xs [] = ([], xs)
answers xs (putc byte ∷ cs) = answers (xs ++ (byte ∷ [])) cs
answers [] (getc ∷ cs) = ([], [])
answers (x ∷ xs) (getc ∷ cs) = let r = answers xs cs in (x ∷ r.0, r.1)

-- No call gets from an empty queue or puts to a full one, as the assertions ask of a handler.
abbrev pub in_bounds : List ℕ → List Call → Bool
in_bounds xs [] = true
in_bounds xs (putc byte ∷ cs) = not (length xs == 63) && in_bounds (xs ++ (byte ∷ [])) cs
in_bounds [] (getc ∷ cs) = false
in_bounds (x ∷ xs) (getc ∷ cs) = in_bounds xs cs

-- Any run of calls that neither gets from an empty queue nor puts to one of 63 bytes gets the bytes
-- in the order in which they were put, without a failed assertion, and leaves the queue valid.
pub calls-answers :
    (cs : List Call) (s : State) (xs : List ℕ)
    → IsQueue s xs
    → in_bounds xs cs ≡ true
    → (s' : State) × (calls s cs ≡ ok ((answers xs cs).0, s')) × IsQueue s' (answers xs cs).1
unfolding calls
calls-answers [] s xs i b = (s, refl, i)
calls-answers (putc byte ∷ cs) s xs i b =
    let p = intq_putc-IsQueue s xs byte i (λ z. ground (arith, z, b)) in
    let r = calls-answers cs _ (xs ++ (byte ∷ [])) p.1 (ground (arith, b)) in
    (r.0, ap (λ o. o >>= (λ s'. calls s' cs)) p.0 ∙ r.1, r.2)
calls-answers (getc ∷ cs) s [] i b = ground (arith, b)
calls-answers (getc ∷ cs) s (x ∷ xs) i b =
    let p = intq_getc-IsQueue s x xs i in
    let r = calls-answers cs _ xs p.1 b in
    (
      r.0,
      ap (λ o. o >>= (λ (byte, s1). calls s1 cs >>= (λ (bytes, s2). ok (byte ∷ bytes, s2)))) p.0
          ∙ ap (λ o. o >>= (λ (bytes, s2). ok (x ∷ bytes, s2))) r.1,
      r.2,
    )

-- ===== src/Intq/Ring.antt =====
-- The circular buffer of devices/intq.c as a queue of at most 63 bytes.
use project.Base.{
  ℕ, zero, suc, ℕ_discrete, ◌+◌, ◌%◌, ◌<◌, ◌≤◌, ◌≡◌, ◌≢◌, refl, sym, ap, ◌∙◌, List, [], ◌∷◌, ◌++◌,
  length, get_or, arith, ◌==◌, if◌then◌else◌, eq→==, ne→==, length-append,
}
use project.Paging.{null}
use project.Threads.{blocked}
use project.Intq.{bufsize, Intq, State, next}

-- The queue holds the bytes `xs`, the oldest first.
pub record Holds (q : Intq) (xs : List ℕ) : Type 0 where
  pub tail_bound : q.tail < bufsize
  pub head_at : q.head ≡ (q.tail + length xs) % bufsize
  pub room : length xs < bufsize
  pub bytes : (i : ℕ) → i < length xs → q.buf ((q.tail + i) % bufsize) ≡ get_or xs i 0

-- a waiting thread is blocked, and waits for one of the two conditions
pub record Waiting (s : State) : Type 0 where
  pub for_room : s.queue.not_full ≢ null → s.sched.status s.queue.not_full ≡ blocked
  pub for_bytes : s.queue.not_empty ≢ null → s.sched.status s.queue.not_empty ≡ blocked
  pub apart : s.queue.not_full ≢ null → s.queue.not_full ≢ s.queue.not_empty

pub empty-length : (q : Intq) (xs : List ℕ) → Holds q xs → (q.head == q.tail) ≡ (length xs == 0)
empty-length q xs v = elim (ℕ_discrete (length xs) 0) [
  | yes e ↦ eq→== q.head q.tail (omega (arith, v.head_at, v.tail_bound, e)) ∙ ground (arith, e)
  | no n ↦
      ne→== q.head q.tail (omega (arith, v.head_at, v.tail_bound, v.room, n)) ∙ ground (arith, n)
]

pub full-length :
    (q : Intq) (xs : List ℕ) → Holds q xs → (next q.head == q.tail) ≡ (length xs == 63)
full-length q xs v = elim (ℕ_discrete (length xs) 63) [
  | yes e ↦
      eq→== (next q.head) q.tail (omega (arith, v.head_at, v.tail_bound, e)) ∙ ground (arith, e)
  | no n ↦
      ne→== (next q.head) q.tail (omega (arith, v.head_at, v.tail_bound, v.room, n))
      ∙ ground (arith, n)
]

get_or-append :
    (xs : List ℕ) (b i : ℕ)
    → i ≤ length xs
    → get_or (xs ++ (b ∷ [])) i 0 ≡ (if i == length xs then b else get_or xs i 0)
get_or-append [] b zero h = refl
get_or-append [] b (suc i) h = absurd (omega (arith, h))
get_or-append (x ∷ xs) b zero h = ground arith
get_or-append (x ∷ xs) b (suc i) h = get_or-append xs b i (omega (arith, h)) ∙ ground arith

-- the queue with one more byte
abbrev pub with_byte : Intq → ℕ → Intq
with_byte q byte = record q { buf = λ i. if i == q.head then byte else q.buf i; head = next q.head }

pub with_byte-Holds :
    (q : Intq) (xs : List ℕ) (byte : ℕ)
    → Holds q xs
    → length xs ≢ 63
    → Holds (with_byte q byte) (xs ++ (byte ∷ []))
with_byte-Holds q xs byte v n = record {
  tail_bound = v.tail_bound;
  head_at = omega (arith, v.head_at, length-append xs (byte ∷ []));
  room = omega (arith, v.room, n, length-append xs (byte ∷ []));
  bytes = λ i h. elim (ℕ_discrete i (length xs)) [
    | yes e ↦
        rw (eq→== ((q.tail + i) % bufsize) q.head (omega (arith, e, v.head_at)))
          (sym (get_or-append xs byte i (omega (arith, e)) ∙ rw (eq→== i (length xs) e) refl))
    | no ne ↦
        let small : i < length xs = omega (arith, h, ne, length-append xs (byte ∷ [])) in
        rw (ne→== ((q.tail + i) % bufsize) q.head (omega (arith, ne, small, v.head_at, v.room))) (
          v.bytes i small
          ∙ sym (get_or-append xs byte i (omega (arith, small)) ∙ rw (ne→== i (length xs) ne) refl))
  ];
}

pub without_byte-Holds :
    (q : Intq) (x : ℕ) (xs : List ℕ) → Holds q (x ∷ xs) → Holds (record q { tail = next q.tail }) xs
without_byte-Holds q x xs v = record {
  tail_bound = omega arith;
  head_at = omega (arith, v.head_at);
  room = omega (arith, v.room);
  bytes = λ i h. ap q.buf (omega arith) ∙ v.bytes (suc i) (omega (arith, h));
}

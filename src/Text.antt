-- ===== src/Text.antt =====
-- lib/string.c: blocks of bytes and strings in memory, which is the byte at each address. Blocks do
-- not reach over the end of the address space, so addresses do not wrap. A loop that looks for the
-- end of a string takes the number of rounds that it may make, and `panic` stands for rounds that
-- run out as well as for a failed assertion. A result below zero is a 32-bit word.
pub mod Blocks
pub mod Strings
pub mod Copies
mod Tests
use project.Base.{
  ℕ, zero, suc, ◌+◌, ◌-◌, ◌%◌, Bool, true, false, not, ◌&&◌, ◌||◌, Outcome, ok, panic, assert,
  ◌>>=◌, ◌>>◌, ◌==◌, ltb, leb, if◌then◌else◌, minus,
}
use project.Paging.{null}

abbrev pub Memory : Type 0
Memory = ℕ → ℕ

abbrev pub store : Memory → (at value : ℕ) → Memory
store m at value = λ a. if a == at then value else m a

-- `while (size-- > 0) *dst++ = *src++;`
unfoldable pub copy_up : (size : ℕ) → Memory → (dst src : ℕ) → Memory
copy_up zero m dst src = m
copy_up (suc size) m dst src = copy_up size (store m dst (m src)) (dst + 1) (src + 1)

-- `while (size-- > 0) *--dst = *--src;`
unfoldable pub copy_down : (size : ℕ) → Memory → (dst src : ℕ) → Memory
copy_down zero m dst src = m
copy_down (suc size) m dst src =
    copy_down size (store m (dst - 1) (m (src - 1))) (dst - 1) (src - 1)

-- The functions that write return their result and the memory.
unfoldable pub memcpy : Memory → (dst src size : ℕ) → Outcome (ℕ × Memory)
unfolding copy_up
memcpy m dst src size = do
  assert (not (dst == null) || (size == 0))
  assert (not (src == null) || (size == 0))
  ok (dst, copy_up size m dst src)

-- The result is `dst` as the loop leaves it.
unfoldable pub memmove : Memory → (dst src size : ℕ) → Outcome (ℕ × Memory)
unfolding copy_up copy_down
memmove m dst src size = do
  assert (not (dst == null) || (size == 0))
  assert (not (src == null) || (size == 0))
  ok (
      if ltb dst src
      then (dst + size, copy_up size m dst src)
      else (dst + size - size, copy_down size m (dst + size) (src + size)))

unfoldable pub fill : (size : ℕ) → Memory → (dst value : ℕ) → Memory
fill zero m dst value = m
fill (suc size) m dst value = fill size (store m dst (value % 256)) (dst + 1) value

unfoldable pub memset : Memory → (dst value size : ℕ) → Outcome (ℕ × Memory)
unfolding fill
memset m dst value size = do
  assert (not (dst == null) || (size == 0))
  ok (dst, fill size m dst value)

unfoldable pub memcmp_loop : (size : ℕ) → Memory → (a b : ℕ) → ℕ
memcmp_loop zero m a b = 0
memcmp_loop (suc size) m a b =
    let rest = memcmp_loop size m (a + 1) (b + 1) in
    if not (m a == m b) then if ltb (m b) (m a) then 1 else minus 1 else rest

unfoldable pub memcmp : Memory → (a b size : ℕ) → Outcome ℕ
unfolding memcmp_loop
memcmp m a b size = do
  assert (not (a == null) || (size == 0))
  assert (not (b == null) || (size == 0))
  ok (memcmp_loop size m a b)

unfoldable pub memchr_loop : (size : ℕ) → Memory → (block ch : ℕ) → ℕ
memchr_loop zero m block ch = null
memchr_loop (suc size) m block ch =
    let rest = memchr_loop size m (block + 1) ch in if m block == ch then block else rest

unfoldable pub memchr : Memory → (block ch size : ℕ) → Outcome ℕ
unfolding memchr_loop
memchr m block ch size = do
  assert (not (block == null) || (size == 0))
  ok (memchr_loop size m block (ch % 256))

unfoldable pub strcmp_loop : (rounds : ℕ) → Memory → (a b : ℕ) → Outcome ℕ
strcmp_loop zero m a b = panic
strcmp_loop (suc rounds) m a b =
    let rest = strcmp_loop rounds m (a + 1) (b + 1) in
    if not (m a == 0) && (m a == m b)
    then rest
    else ok (if ltb (m a) (m b) then minus 1 else if ltb (m b) (m a) then 1 else 0)

unfoldable pub strcmp : (rounds : ℕ) → Memory → (a b : ℕ) → Outcome ℕ
unfolding strcmp_loop
strcmp rounds m a b = do
  assert (not (a == null))
  assert (not (b == null))
  strcmp_loop rounds m a b

unfoldable pub strchr_loop : (rounds : ℕ) → Memory → (string c : ℕ) → Outcome ℕ
strchr_loop zero m string c = panic
strchr_loop (suc rounds) m string c =
    let rest = strchr_loop rounds m (string + 1) c in
    if m string == c then ok string else if m string == 0 then ok null else rest

unfoldable pub strchr : (rounds : ℕ) → Memory → (string c : ℕ) → Outcome ℕ
unfolding strchr_loop
strchr rounds m string c = do assert (not (string == null)); strchr_loop rounds m string (c % 256)

-- the loops of `strcspn` and `strspn`, which stop at a character that `stop` has (`found` true) or
-- has not
unfoldable pub span_loop :
    (rounds : ℕ) → Memory → (string stop length : ℕ) → (found : Bool) → Outcome ℕ
span_loop zero m string stop length found = panic
span_loop (suc rounds) m string stop length found =
    let c = m (string + length) in
    let rest = span_loop rounds m string stop (length + 1) found in
    let test = (do
      at ← strchr rounds m stop c
      if found
          then if not (at == null) then ok length else rest
          else if at == null
          then ok length
          else rest) in
    if c == 0 then ok length else test

unfoldable pub strcspn : (rounds : ℕ) → Memory → (string stop : ℕ) → Outcome ℕ
unfolding span_loop
strcspn rounds m string stop = span_loop rounds m string stop 0 true

unfoldable pub strspn : (rounds : ℕ) → Memory → (string skip : ℕ) → Outcome ℕ
unfolding span_loop
strspn rounds m string skip = span_loop rounds m string skip 0 false

unfoldable pub strpbrk : (rounds : ℕ) → Memory → (string stop : ℕ) → Outcome ℕ
strpbrk zero m string stop = panic
strpbrk (suc rounds) m string stop =
    let rest = strpbrk rounds m (string + 1) stop in
    let test = (do
      at ← strchr rounds m stop (m string)
      if not (at == null) then ok string else rest) in
    if m string == 0 then ok null else test

unfoldable pub strrchr_loop : (rounds : ℕ) → Memory → (string c p : ℕ) → Outcome ℕ
strrchr_loop zero m string c p = panic
strrchr_loop (suc rounds) m string c p =
    let rest = strrchr_loop rounds m (string + 1) c (if m string == c then string else p) in
    if m string == 0 then ok p else rest

unfoldable pub strrchr : (rounds : ℕ) → Memory → (string c : ℕ) → Outcome ℕ
unfolding strrchr_loop
strrchr rounds m string c = strrchr_loop rounds m string (c % 256) null

unfoldable pub strlen_loop : (rounds : ℕ) → Memory → (p : ℕ) → Outcome ℕ
strlen_loop zero m p = panic
strlen_loop (suc rounds) m p =
    let rest = strlen_loop rounds m (p + 1) in if m p == 0 then ok p else rest

unfoldable pub strlen : (rounds : ℕ) → Memory → (string : ℕ) → Outcome ℕ
unfolding strlen_loop
strlen rounds m string = do
  assert (not (string == null))
  p ← strlen_loop rounds m string
  ok (p - string)

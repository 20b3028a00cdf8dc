-- ===== src/Links.antt =====
-- lib/kernel/list.c: doubly linked lists whose elements stand inside other objects. The heap is the
-- `prev` and `next` of the list element at each address; a `struct list` at `l` has its `head` at
-- `l` and its `tail` at `l + 8`. A loop takes the number of rounds that it may make, and `panic`
-- stands for rounds that run out as well as for a failed assertion.
pub mod Abstract
pub mod Chain
pub mod Deque
pub mod Measure
pub mod Order
pub mod Refine
pub mod Reverse
mod Tests
use project.Base.{
  ℕ, zero, suc, ◌+◌, Bool, true, false, not, ◌&&◌, ◌||◌, Outcome, ok, panic, assert, ◌>>=◌, ◌>>◌,
  ◌==◌, if◌then◌else◌, add32,
}
use project.Paging.{null}

-- all of `struct list_elem` in memory
pub record Heap : Type 0 where
  pub prev : ℕ → ℕ
  pub next : ℕ → ℕ

abbrev pub set_prev : Heap → (elem value : ℕ) → Heap
set_prev h elem value = record h { prev = λ a. if a == elem then value else h.prev a }

abbrev pub set_next : Heap → (elem value : ℕ) → Heap
set_next h elem value = record h { next = λ a. if a == elem then value else h.next a }

-- `&list->tail`
abbrev pub tail_of : ℕ → ℕ
tail_of l = l + 8

unfoldable pub is_head : Heap → (elem : ℕ) → Bool
is_head h elem = not (elem == null) && (h.prev elem == null) && not (h.next elem == null)

unfoldable pub is_interior : Heap → (elem : ℕ) → Bool
is_interior h elem = not (elem == null) && not (h.prev elem == null) && not (h.next elem == null)

unfoldable pub is_tail : Heap → (elem : ℕ) → Bool
is_tail h elem = not (elem == null) && not (h.prev elem == null) && (h.next elem == null)

unfoldable pub list_init : Heap → (list : ℕ) → Outcome Heap
list_init h list = do
  assert (not (list == null))
  let h1 = set_next (set_prev h list null) list (tail_of list)
  ok (set_next (set_prev h1 (tail_of list) list) (tail_of list) null)

unfoldable pub list_begin : Heap → (list : ℕ) → Outcome ℕ
list_begin h list = do assert (not (list == null)); ok (h.next list)

unfoldable pub list_next : Heap → (elem : ℕ) → Outcome ℕ
unfolding is_head is_interior
list_next h elem = do assert (is_head h elem || is_interior h elem); ok (h.next elem)

unfoldable pub list_end : (list : ℕ) → Outcome ℕ
list_end list = do assert (not (list == null)); ok (tail_of list)

unfoldable pub list_rbegin : Heap → (list : ℕ) → Outcome ℕ
list_rbegin h list = do assert (not (list == null)); ok (h.prev (tail_of list))

unfoldable pub list_prev : Heap → (elem : ℕ) → Outcome ℕ
unfolding is_interior is_tail
list_prev h elem = do assert (is_interior h elem || is_tail h elem); ok (h.prev elem)

-- `list_rend` and `list_head`
unfoldable pub list_rend : (list : ℕ) → Outcome ℕ
list_rend list = do assert (not (list == null)); ok list

unfoldable pub list_insert : Heap → (before elem : ℕ) → Outcome Heap
unfolding is_interior is_tail
list_insert h before elem = do
  assert (is_interior h before || is_tail h before)
  assert (not (elem == null))
  let h1 = set_prev h elem (h.prev before)
  let h2 = set_next h1 elem before
  let h3 = set_next h2 (h2.prev before) elem
  ok (set_prev h3 before elem)

unfoldable pub list_splice : Heap → (before first last : ℕ) → Outcome Heap
unfolding is_interior is_tail list_prev
list_splice h before first last = do
  assert (is_interior h before || is_tail h before)
  let move = (do
    end ← list_prev h last
    assert (is_interior h first)
    assert (is_interior h end)
    let h1 = set_next h (h.prev first) (h.next end)
    let h2 = set_prev h1 (h1.next end) (h1.prev first)
    let h3 = set_prev h2 first (h2.prev before)
    let h4 = set_next h3 end before
    let h5 = set_next h4 (h4.prev before) first
    ok (set_prev h5 before end))
  if first == last then ok h else move

unfoldable pub list_push_front : Heap → (list elem : ℕ) → Outcome Heap
unfolding list_begin
list_push_front h list elem = do begin ← list_begin h list; list_insert h begin elem

unfoldable pub list_push_back : Heap → (list elem : ℕ) → Outcome Heap
unfolding list_end
list_push_back h list elem = do end ← list_end list; list_insert h end elem

-- The heap, with the element that followed the one removed.
unfoldable pub list_remove : Heap → (elem : ℕ) → Outcome (ℕ × Heap)
unfolding is_interior
list_remove h elem = do
  assert (is_interior h elem)
  let h1 = set_next h (h.prev elem) (h.next elem)
  let h2 = set_prev h1 (h1.next elem) (h1.prev elem)
  ok (h2.next elem, h2)

unfoldable pub list_empty : Heap → (list : ℕ) → Outcome Bool
unfolding list_begin list_end
list_empty h list = do begin ← list_begin h list; end ← list_end list; ok (begin == end)

unfoldable pub list_front : Heap → (list : ℕ) → Outcome ℕ
unfolding list_empty
list_front h list = do empty ← list_empty h list; assert (not empty); ok (h.next list)

unfoldable pub list_back : Heap → (list : ℕ) → Outcome ℕ
unfolding list_empty
list_back h list = do empty ← list_empty h list; assert (not empty); ok (h.prev (tail_of list))

unfoldable pub list_pop_front : Heap → (list : ℕ) → Outcome (ℕ × Heap)
unfolding list_front
list_pop_front h list = do front ← list_front h list; (_, h') ← list_remove h front; ok (front, h')

unfoldable pub list_pop_back : Heap → (list : ℕ) → Outcome (ℕ × Heap)
unfolding list_back
list_pop_back h list = do back ← list_back h list; (_, h') ← list_remove h back; ok (back, h')

-- the loop of `list_size`
unfoldable pub size_loop : (rounds : ℕ) → Heap → (e end cnt : ℕ) → Outcome ℕ
size_loop zero h e end cnt = panic
size_loop (suc rounds) h e end cnt =
    let round = (do e' ← list_next h e; size_loop rounds h e' end (add32 cnt 1)) in
    if e == end then ok cnt else round

unfoldable pub list_size : (rounds : ℕ) → Heap → (list : ℕ) → Outcome ℕ
unfolding size_loop list_begin list_end
list_size rounds h list = do
  begin ← list_begin h list
  end ← list_end list
  size_loop rounds h begin end 0

-- `swap (&e->prev, &e->next)`
abbrev pub swap_links : Heap → (e : ℕ) → Heap
swap_links h e = set_next (set_prev h e (h.next e)) e (h.prev e)

-- the loop of `list_reverse`
unfoldable pub reverse_loop : (rounds : ℕ) → Heap → (e end : ℕ) → Outcome Heap
reverse_loop zero h e end = panic
reverse_loop (suc rounds) h e end =
    let round = reverse_loop rounds (swap_links h e) ((swap_links h e).prev e) end in
    if e == end then ok h else round

-- what follows that loop
abbrev pub reverse_ends : Heap → (list : ℕ) → Heap
reverse_ends h list =
    let first = h.next list in
    let h1 = set_prev (set_next h list (h.prev (tail_of list))) (tail_of list) first in
    let a = h1.next list in
    let b = h1.prev (tail_of list) in set_next (set_prev h1 a (h1.next b)) b (h1.prev a)

unfoldable pub list_reverse : (rounds : ℕ) → Heap → (list : ℕ) → Outcome Heap
unfolding reverse_loop list_empty list_begin list_end
list_reverse rounds h list = do
  empty ← list_empty h list
  begin ← list_begin h list
  end ← list_end list
  let turn = (do h' ← reverse_loop rounds h begin end; ok (reverse_ends h' list))
  if empty then ok h else turn

module _ (less : (a b : ℕ) → Bool) where
  -- the loop of `list_insert_ordered`, up to its end or `break`
  unfoldable pub ordered_loop : (rounds : ℕ) → Heap → (e end elem : ℕ) → Outcome ℕ
  ordered_loop zero h e end elem = panic
  ordered_loop (suc rounds) h e end elem =
      let round = (do e' ← list_next h e; ordered_loop rounds h e' end elem) in
      if (e == end) || less elem e then ok e else round

  unfoldable pub list_insert_ordered : (rounds : ℕ) → Heap → (list elem : ℕ) → Outcome Heap
  unfolding ordered_loop list_begin list_end
  list_insert_ordered rounds h list elem = do
    assert (not (list == null))
    assert (not (elem == null))
    begin ← list_begin h list
    end ← list_end list
    e ← ordered_loop rounds h begin end elem
    list_insert h e elem

  -- the loop of `list_max`, and that of `list_min` with the test the other way round
  unfoldable pub max_loop : (rounds : ℕ) → Heap → (e end max : ℕ) → Outcome ℕ
  max_loop zero h e end max = panic
  max_loop (suc rounds) h e end max =
      let round = (do
        e' ← list_next h e
        max_loop rounds h e' end (if less max e then e else max)) in
      if e == end then ok max else round

  unfoldable pub list_max : (rounds : ℕ) → Heap → (list : ℕ) → Outcome ℕ
  unfolding max_loop list_begin list_end
  list_max rounds h list = do
    max ← list_begin h list
    end ← list_end list
    let search = (do e ← list_next h max; max_loop rounds h e end max)
    if max == end then ok max else search

unfoldable pub list_min : (less : (a b : ℕ) → Bool) → (rounds : ℕ) → Heap → (list : ℕ) → Outcome ℕ
unfolding list_max
list_min less rounds h list = list_max (λ a b. less b a) rounds h list

module _ (less : (a b : ℕ) → Bool) where
  -- the loop of `list_unique`, for a list of `duplicates` or `NULL`
  unfoldable pub unique_loop : (rounds : ℕ) → Heap → (elem end duplicates : ℕ) → Outcome Heap
  unique_loop zero h elem end duplicates = panic
  unique_loop (suc rounds) h elem end duplicates = do
    next ← list_next h elem
    let drop = (do
      (_, h') ← list_remove h next
      h'' ← (if duplicates == null then ok h' else list_push_back h' duplicates next)
      unique_loop rounds h'' elem end duplicates)
    let keep = unique_loop rounds h next end duplicates
    if next == end
        then ok h
        else if not (less elem next) && not (less next elem)
        then drop
        else keep

  unfoldable pub list_unique : (rounds : ℕ) → Heap → (list duplicates : ℕ) → Outcome Heap
  unfolding unique_loop list_begin list_end list_empty
  list_unique rounds h list duplicates = do
    assert (not (list == null))
    empty ← list_empty h list
    begin ← list_begin h list
    end ← list_end list
    let run = unique_loop rounds h begin end duplicates
    if empty then ok h else run

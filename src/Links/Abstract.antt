-- ===== src/Links/Abstract.antt =====
-- What lib/kernel/list.c promises: the operations of a list on a plain sequence of addresses, with
-- what their callers must see to, and the same operations run on the heap.
use project.Base.{
  ℕ, Bool, true, false, not, ◌&&◌, List, [], ◌∷◌, ◌++◌, ◌==◌, if◌then◌else◌, Outcome, ok, ◌>>=◌,
  mem,
}
use project.Paging.{null}
use project.Links.{
  Heap, tail_of, list_insert, list_remove, list_push_front, list_push_back, list_pop_front,
  list_pop_back,
}
use project.Links.Chain.{place}

pub data Operation : Type 0 where
  push_front : (e : ℕ) → Operation
  push_back : (e : ℕ) → Operation
  insert : (before e : ℕ) → Operation
  pop_front : Operation
  pop_back : Operation
  remove : (e : ℕ) → Operation

-- an operation on the heap, with the element that it returns (`NULL` where it returns none)
unfoldable pub perform : Heap → (l : ℕ) → Operation → Outcome (ℕ × Heap)
perform h l (push_front e) = do h' ← list_push_front h l e; ok (null, h')
perform h l (push_back e) = do h' ← list_push_back h l e; ok (null, h')
perform h l (insert before e) = do h' ← list_insert h before e; ok (null, h')
perform h l pop_front = list_pop_front h l
perform h l pop_back = list_pop_back h l
perform h l (remove e) = list_remove h e

unfoldable pub performs : Heap → (l : ℕ) → List Operation → Outcome (List ℕ × Heap)
unfolding perform
performs h l [] = ok ([], h)
performs h l (op ∷ ops) = do (x, h1) ← perform h l op; (xs, h2) ← performs h1 l ops; ok (x ∷ xs, h2)

abbrev pub is_nil : List ℕ → Bool
is_nil [] = true
is_nil (x ∷ xs) = false

-- the last of `xs` behind `x`, and what is before it
abbrev pub last_of : ℕ → List ℕ → ℕ
last_of x [] = x
last_of x (y ∷ ys) = last_of y ys

abbrev pub before_last : ℕ → List ℕ → List ℕ
before_last x [] = []
before_last x (y ∷ ys) = x ∷ before_last y ys

abbrev pub put_before : (before e : ℕ) → List ℕ → List ℕ
put_before before e [] = e ∷ []
put_before before e (x ∷ xs) = if before == x then e ∷ x ∷ xs else x ∷ put_before before e xs

abbrev pub erase : ℕ → List ℕ → List ℕ
erase e [] = []
erase e (x ∷ xs) = if e == x then xs else x ∷ erase e xs

-- what stands behind `e`, or `d` if `e` is the last
abbrev pub follower : (d e : ℕ) → List ℕ → ℕ
follower d e [] = d
follower d e (x ∷ xs) = if e == x then place xs d else follower d e xs

-- the returned element and the sequence that an operation leaves
unfoldable pub result : (l : ℕ) → List ℕ → Operation → ℕ × List ℕ
result l xs (push_front e) = (null, e ∷ xs)
result l xs (push_back e) = (null, xs ++ (e ∷ []))
result l xs (insert before e) = (null, put_before before e xs)
result l [] pop_front = (null, [])
result l (x ∷ xs) pop_front = (x, xs)
result l [] pop_back = (null, [])
result l (x ∷ xs) pop_back = (last_of x xs, before_last x xs)
result l xs (remove e) = (follower (tail_of l) e xs, erase e xs)

-- An element to put in stands in no place of the list yet; an element to take out stands in it.
unfoldable pub permitted : (l : ℕ) → List ℕ → Operation → Bool
permitted l xs (push_front e) = not (mem e (null ∷ l ∷ tail_of l ∷ xs))
permitted l xs (push_back e) = not (mem e (null ∷ l ∷ tail_of l ∷ xs))
permitted l xs (insert before e) =
    mem before (tail_of l ∷ xs) && not (mem e (null ∷ l ∷ tail_of l ∷ xs))
permitted l xs pop_front = not (is_nil xs)
permitted l xs pop_back = not (is_nil xs)
permitted l xs (remove e) = mem e xs

unfoldable pub results : (l : ℕ) → List ℕ → List Operation → List ℕ × List ℕ
unfolding result
results l xs [] = ([], xs)
results l xs (op ∷ ops) = let r = result l xs op in let rs = results l r.1 ops in (r.0 ∷ rs.0, rs.1)

unfoldable pub all_permitted : (l : ℕ) → List ℕ → List Operation → Bool
unfolding permitted result
all_permitted l xs [] = true
all_permitted l xs (op ∷ ops) = permitted l xs op && all_permitted l (result l xs op).1 ops

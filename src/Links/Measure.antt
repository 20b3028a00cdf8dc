-- ===== src/Links/Measure.antt =====
-- The loops of lib/kernel/list.c that walk a list: `list_size` and `list_max`.
use project.Base.{
  ℕ, zero, suc, ◌+◌, ◌%◌, ◌^◌, ◌<◌, ◌≡◌, refl, ap, ◌∙◌, false, List, [], ◌∷◌, arith, ok, mem, Nodup,
  length, ne→==, eq→==, add32,
}
use project.Paging.{null}
use project.Links.{
  Heap, tail_of, list_next, list_begin, list_end, is_head, is_interior, size_loop, list_size,
}
use project.Links.Chain.{Linked, place, Linked-split, place-mem}
use project.Links.Deque.{IsList}
use project.Links.Refine.{next-place}

-- `list_next` leads from an element to the one behind it.
pub list_next-place :
    (h : Heap) (u x : ℕ) (xs : List ℕ) (w : ℕ)
    → Linked h u (x ∷ xs) w
    → mem null (u ∷ w ∷ x ∷ xs) ≡ false
    → list_next h x ≡ ok (place xs w)
unfolding list_next is_head is_interior
list_next-place h u x xs w c n =
    let q = Linked-split h x [] xs w c.2 in
    let b = place-mem xs w in
    rw
      (
        ne→== x null (λ z. ground (arith, z, n)),
        c.1,
        q.0.0,
        ne→== (place xs w) null (λ z. ground (arith, z, b, n)),
        ne→== u null (λ z. ground (arith, z, n)),
      )
      refl

size_loop-length :
    (rounds : ℕ) (h : Heap) (u : ℕ) (xs : List ℕ) (w cnt : ℕ)
    → Linked h u xs w
    → Nodup (w ∷ xs)
    → mem null (u ∷ w ∷ xs) ≡ false
    → length xs < rounds
    → cnt < 2 ^ 32
    → size_loop rounds h (place xs w) w cnt ≡ ok ((cnt + length xs) % 2 ^ 32)
unfolding size_loop
size_loop-length zero h u xs w cnt c d n f b = absurd (omega (arith, f))
size_loop-length (suc rounds) h u [] w cnt c d n f b =
    rw (eq→== w w refl) (ap ok (omega (arith, b)))
size_loop-length (suc rounds) h u (x ∷ xs) w cnt c d n f b =
    rw (list_next-place h u x xs w c n, ne→== x w (λ z. ground (arith, z, d)))
      (size_loop-length rounds h x xs w (add32 cnt 1) c.2 (ground (arith, d), d.1.1)
          (ground (arith, n)) (omega (arith, f)) (omega arith)
        ∙ ap ok (omega arith))

-- `list_size` returns the number of elements, modulo 2^32, after as many rounds as there are
-- elements and one more.
pub list_size-length :
    (rounds : ℕ) (h : Heap) (l : ℕ) (xs : List ℕ)
    → IsList h l xs
    → length xs < rounds
    → list_size rounds h l ≡ ok (length xs % 2 ^ 32)
unfolding list_size list_begin list_end
list_size-length rounds h l xs i f =
    rw (ne→== l null (λ z. ground (arith, z, i.exists)), next-place h l xs i)
      (size_loop-length rounds h l xs (tail_of l) 0 i.chain i.once.1 i.exists f (omega arith)
        ∙ ap (λ n. ok (n % 2 ^ 32)) (omega arith))

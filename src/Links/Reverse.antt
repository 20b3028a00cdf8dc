-- ===== src/Links/Reverse.antt =====
-- `list_reverse` of lib/kernel/list.c: the loop that swaps the two links of each element, and the
-- exchange of the ends.
use project.Base.{
  ℕ, zero, suc, ◌<◌, ◌≡◌, ◌≢◌, refl, sym, ap, subst, ◌∙◌, true, List, [], ◌∷◌, ◌++◌, arith, ◌==◌,
  if◌then◌else◌, ok, mem, Nodup, length, ne→==, eq→==, inl, inr, mem-append, Nodup-append,
  List-cases,
}
use project.Paging.{null}
use project.Links.{
  Heap, tail_of, list_begin, list_end, swap_links, reverse_loop, reverse_ends, list_reverse,
}
use project.Links.Chain.{
  Linked, place, Rest, Linked-append, Linked-split, Rest-frame, Linked-redirect,
}
use project.Links.Deque.{IsList}
use project.Links.Refine.{list_empty-IsList}

abbrev pub reverse : List ℕ → List ℕ
reverse [] = []
reverse (x ∷ xs) = reverse xs ++ (x ∷ [])

mem-reverse : (t : ℕ) (xs : List ℕ) → mem t (reverse xs) ≡ mem t xs
mem-reverse t [] = refl
mem-reverse t (x ∷ xs) = ground (arith, mem-append t x (reverse xs), mem-reverse t xs)

Nodup-reverse : (xs : List ℕ) → Nodup xs → Nodup (reverse xs)
Nodup-reverse [] d = tt
Nodup-reverse (x ∷ xs) d =
    Nodup-append x (reverse xs) (Nodup-reverse xs d.1) (mem-reverse x xs ∙ d.0)

-- every link turned round
abbrev pub flip : Heap → Heap
flip h = record { prev = h.next; next = h.prev }

Linked-reverse :
    (h : Heap) (u : ℕ) (xs : List ℕ) (w : ℕ) → Linked h u xs w → Linked (flip h) w (reverse xs) u
Linked-reverse h u [] w c = (c.1, c.0)
Linked-reverse h u (x ∷ xs) w c =
    Linked-append (flip h) w (reverse xs) (x ∷ []) u (Linked-reverse h x xs w c.2) (c.1, c.0)

reverse_loop-round :
    (rounds : ℕ) (h : Heap) (e end : ℕ)
    → e ≢ end
    → reverse_loop (suc rounds) h e end ≡ reverse_loop rounds (swap_links h e) (h.next e) end
unfolding reverse_loop
reverse_loop-round rounds h e end n = rw (ne→== e end n, eq→== e e refl) refl

-- The loop turns round the links of the elements, and of no others.
reverse_loop-flip :
    (rounds : ℕ) (h : Heap) (xs : List ℕ) (w : ℕ)
    → Rest h xs w
    → Nodup (w ∷ xs)
    → length xs < rounds
    → (h' : Heap) × (reverse_loop rounds h (place xs w) w ≡ ok h')
      × ((a : ℕ) → h'.next a ≡ (if mem a xs then h.prev a else h.next a))
      × ((a : ℕ) → h'.prev a ≡ (if mem a xs then h.next a else h.prev a))
unfolding reverse_loop
reverse_loop-flip zero h xs w c d f = absurd (omega (arith, f))
reverse_loop-flip (suc rounds) h [] w c d f = (h, rw (eq→== w w refl) refl, λ a. refl, λ a. refl)
reverse_loop-flip (suc rounds) h (x ∷ xs) w c d f =
    let h1 = swap_links h x in
    let q = Linked-split h x [] xs w c in
    let rest =
      Rest-frame h h1 xs w (ground (arith, d), d.1.1) (λ a m. ground (arith, m, d))
        (λ a m _. ground (arith, m, d)) q.1 in
    let r = reverse_loop-flip rounds h1 xs w rest (ground (arith, d), d.1.1) (omega (arith, f)) in
    (
      r.0,
      reverse_loop-round rounds h x w (λ z. ground (arith, z, d))
          ∙ ap (λ e. reverse_loop rounds h1 e w) q.0.0
          ∙ r.1,
      λ a. r.2 a ∙ ground (arith, d),
      λ a. r.3 a ∙ ground (arith, d),
    )

-- A chain that is turned round between `t` and `l` becomes one from `l` to `t`.
Linked-exchange :
    (f g : Heap) (l t : ℕ) (ys : List ℕ) (y : ℕ)
    → Linked f t (y ∷ ys) l
    → Nodup (y ∷ ys)
    → g.next l ≡ y
    → g.prev y ≡ l
    → g.prev t ≡ f.prev l
    → ((a : ℕ) → mem a (y ∷ ys) ≡ true → g.next a ≡ (if a == f.prev l then t else f.next a))
    → ((a : ℕ) → mem a ys ≡ true → g.prev a ≡ f.prev a)
    → Linked g l (y ∷ ys) t
Linked-exchange f g l t ys y c d a b e n p = (a, b, Linked-redirect f g y ys l t c.2 d n p e)

module _ (h k : Heap) (l x : ℕ) (xs : List ℕ) (y : ℕ) (ys : List ℕ) (i : IsList h l (x ∷ xs))
    (e : reverse (x ∷ xs) ≡ y ∷ ys)
    (n : (a : ℕ) → k.next a ≡ (if mem a (x ∷ xs) then h.prev a else h.next a))
    (p : (a : ℕ) → k.prev a ≡ (if mem a (x ∷ xs) then h.next a else h.prev a)) where
  turned : Linked (flip h) (tail_of l) (y ∷ ys) l
  turned =
      subst (λ zs. Linked (flip h) (tail_of l) zs l) e
        (Linked-reverse h l (x ∷ xs) (tail_of l) i.chain)

  same_elements : (a : ℕ) → mem a (y ∷ ys) ≡ mem a (x ∷ xs)
  same_elements a = ap (mem a) (sym e) ∙ mem-reverse a (x ∷ xs)

  first_now : k.next l ≡ x
  first_now = n l ∙ ground (arith, i.once, i.chain.0)

  last_now : k.prev (tail_of l) ≡ y
  last_now = p (tail_of l) ∙ ground (arith, i.once, turned.0)

  reverse_ends-next :
      (a : ℕ)
      → (reverse_ends k l).next a ≡ (if a == x then tail_of l else if a == l then y else k.next a)
  reverse_ends-next a = ground (arith, first_now, last_now, turned.1, p y, same_elements y, i.once)

  reverse_ends-prev :
      (a : ℕ)
      → (reverse_ends k l).prev a ≡ (if a == y then l else if a == tail_of l then x else k.prev a)
  reverse_ends-prev a = ground (arith, first_now, last_now, n x, i.chain.1, i.once)

  reverse_ends-IsList : IsList (reverse_ends k l) l (y ∷ ys)
  reverse_ends-IsList =
      let d = subst Nodup e (Nodup-reverse (x ∷ xs) i.once.1.1) in
      let there = same_elements y in
      let next = reverse_ends-next in
      let prev = reverse_ends-prev in
      record {
        chain =
            Linked-exchange (flip h) (reverse_ends k l) l (tail_of l) ys y turned d
              (next l ∙ ground (arith, i.once)) (prev y ∙ ground arith)
              (prev (tail_of l) ∙ ground (arith, i.once, i.chain.0, there))
              (λ a m. next a ∙ ground (arith, n a, same_elements a, m, i.chain.0, i.once))
              (λ a m. prev a ∙ ground (arith, p a, same_elements a, m, d, i.once));
        first = prev l ∙ ground (arith, p l, i.first, i.once, there);
        last = next (tail_of l) ∙ ground (arith, n (tail_of l), i.last, i.once);
        once = (
          ground (arith, same_elements l, i.once),
          (ground (arith, same_elements (tail_of l), i.once), d),
        );
        exists = ground (arith, same_elements null, i.exists);
      }

-- `list_reverse` leaves the elements of a list in the opposite order, after as many rounds as there
-- are elements and one more.
pub list_reverse-reverse :
    (rounds : ℕ) (h : Heap) (l : ℕ) (xs : List ℕ)
    → IsList h l xs
    → length xs < rounds
    → (h' : Heap) × (list_reverse rounds h l ≡ ok h') × IsList h' l (reverse xs)
unfolding list_reverse list_begin list_end
list_reverse-reverse rounds h l [] i b =
    (h, rw (list_empty-IsList h l [] i, ne→== l null (λ z. ground (arith, z, i.exists))) refl, i)
list_reverse-reverse rounds h l (x ∷ xs) i b =
    let r =
      reverse_loop-flip rounds h (x ∷ xs) (tail_of l) i.chain.2 (ground (arith, i.once), i.once.1.1)
        b in
    let h' = reverse_ends r.0 l in
    (
      h',
      rw
          (
            list_empty-IsList h l (x ∷ xs) i,
            ne→== l null (λ z. ground (arith, z, i.exists)),
            i.chain.0,
            r.1,
          )
          refl,
      elim (List-cases (reverse (x ∷ xs))) [
        | inl e ↦ absurd (ground (arith, mem-reverse x (x ∷ xs), ap (mem x) e))
        | inr (y, ys, e) ↦
            subst (IsList h' l) (sym e) (reverse_ends-IsList h r.0 l x xs y ys i e r.2 r.3)
      ],
    )

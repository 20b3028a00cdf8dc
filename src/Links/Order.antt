-- ===== src/Links/Order.antt =====
-- The parts of lib/kernel/list.c that compare elements: `list_max` and `list_insert_ordered`.
use project.Base.{
  ℕ, zero, suc, ◌<◌, ◌≡◌, refl, ap, Bool, true, false, List, [], ◌∷◌, ◌++◌, arith, if◌then◌else◌,
  ok, mem, Nodup, length, ne→==, eq→==, Bool-cases, inl, inr, append-nil, append_assoc, mem-append,
  sym, subst,
}
use project.Paging.{null}
use project.Links.{
  Heap, tail_of, list_begin, list_end, max_loop, list_max, ordered_loop, list_insert_ordered,
}
use project.Links.Chain.{Linked, place}
use project.Links.Deque.{IsList, IsFresh, list_insert-IsList}
use project.Links.Refine.{next-place}
use project.Links.Measure.{list_next-place}

-- what `list_less_func` documents: a strict order
pub record IsOrder (less : (a b : ℕ) → Bool) : Type 0 where
  pub irreflexive : (a : ℕ) → less a a ≡ false
  pub transitive : (a b c : ℕ) → less a b ≡ true → less b c ≡ true → less a c ≡ true

module _ (less : (a b : ℕ) → Bool) where
  -- `m` is one of `xs`, and none of them is greater
  abbrev pub IsMax : (m : ℕ) → List ℕ → Type 0
  IsMax m xs = (mem m xs ≡ true) × ((y : ℕ) → mem y xs ≡ true → less m y ≡ false)

module _ (less : (a b : ℕ) → Bool) (o : IsOrder less) where
  -- one more element seen
  IsMax-append :
      (x max : ℕ) (seen : List ℕ)
      → IsMax less max seen
      → IsMax less (if less max x then x else max) (seen ++ (x ∷ []))
  IsMax-append x max seen p = elim (Bool-cases (less max x)) [
    | inl c ↦ (
      rw c (ground (arith, mem-append x x seen)),
      λ y m.
          rw c
            (ground (arith, mem-append y x seen, o.irreflexive x, o.transitive max x y, p.1 y, m)),
    )
    | inr c ↦ (
      rw c (ground (arith, mem-append max x seen, p.0)),
      λ y m. rw c (ground (arith, mem-append y x seen, p.1 y, m)),
    )
  ]

  max_loop-IsMax :
      (rounds : ℕ) (h : Heap) (u : ℕ) (xs : List ℕ) (w max : ℕ) (seen : List ℕ)
      → Linked h u xs w
      → Nodup (w ∷ xs)
      → mem null (u ∷ w ∷ xs) ≡ false
      → length xs < rounds
      → IsMax less max seen
      → (m : ℕ) × (max_loop less rounds h (place xs w) w max ≡ ok m) × IsMax less m (seen ++ xs)
  unfolding max_loop
  max_loop-IsMax zero h u xs w max seen c d n f p = absurd (omega (arith, f))
  max_loop-IsMax (suc rounds) h u [] w max seen c d n f p =
      (max, rw (eq→== w w refl) refl, subst (IsMax less max) (sym (append-nil seen)) p)
  max_loop-IsMax (suc rounds) h u (x ∷ xs) w max seen c d n f p =
      let best = if less max x then x else max in
      let r =
        max_loop-IsMax rounds h x xs w best (seen ++ (x ∷ [])) c.2 (ground (arith, d), d.1.1)
          (ground (arith, n)) (omega (arith, f)) (IsMax-append x max seen p) in
      (
        r.0,
        rw (list_next-place h u x xs w c n, ne→== x w (λ z. ground (arith, z, d))) r.1,
        subst (IsMax less r.0) (append_assoc seen (x ∷ []) xs) r.2,
      )

  -- `list_max` of a list that is not empty returns one of its elements than which no other is
  -- greater, after at most as many rounds as there are elements.
  pub list_max-IsMax :
      (rounds : ℕ) (h : Heap) (l x : ℕ) (xs : List ℕ)
      → IsList h l (x ∷ xs)
      → length xs < rounds
      → (m : ℕ) × (list_max less rounds h l ≡ ok m) × IsMax less m (x ∷ xs)
  unfolding list_max list_begin list_end
  list_max-IsMax rounds h l x xs i f =
      let r =
        max_loop-IsMax rounds h x xs (tail_of l) x (x ∷ []) i.chain.2
          (ground (arith, i.once), i.once.1.1.1) (ground (arith, i.exists)) f
          (ground arith, λ y m. ground (arith, m, o.irreflexive x)) in
      (
        r.0,
        rw
            (
              ne→== l null (λ z. ground (arith, z, i.exists)),
              next-place h l (x ∷ xs) i,
              ne→== x (tail_of l) (λ z. ground (arith, z, i.once)),
              list_next-place h l x xs (tail_of l) i.chain i.exists,
            )
            r.1,
        r.2,
      )

module _ (less : (a b : ℕ) → Bool) where
  -- what `is_sorted` tests: no element is less than the one before it
  abbrev pub Sorted : List ℕ → Type 0
  Sorted [] = Unit
  Sorted (x ∷ []) = Unit
  Sorted (x ∷ y ∷ ys) = (less y x ≡ false) × Sorted (y ∷ ys)

  -- the sequence with `e` before the first element that it is less than
  abbrev pub insert_sorted : ℕ → List ℕ → List ℕ
  insert_sorted e [] = e ∷ []
  insert_sorted e (x ∷ xs) = if less e x then e ∷ x ∷ xs else x ∷ insert_sorted e xs

  -- the place at which the loop stops
  ordered_loop-place :
      (rounds : ℕ) (h : Heap) (u : ℕ) (xs : List ℕ) (w e : ℕ)
      → Linked h u xs w
      → Nodup (w ∷ xs)
      → mem null (u ∷ w ∷ xs) ≡ false
      → length xs < rounds
      → (vs ws : List ℕ) × (xs ≡ vs ++ ws)
        × (ordered_loop less rounds h (place xs w) w e ≡ ok (place ws w))
        × (insert_sorted e xs ≡ vs ++ (e ∷ ws))
  unfolding ordered_loop
  ordered_loop-place zero h u xs w e c d n f = absurd (omega (arith, f))
  ordered_loop-place (suc rounds) h u [] w e c d n f =
      ([], [], refl, rw (eq→== w w refl) refl, refl)
  ordered_loop-place (suc rounds) h u (x ∷ xs) w e c d n f =
      let q = ne→== x w (λ z. ground (arith, z, d)) in
      elim (Bool-cases (less e x)) [
        | inl b ↦ ([], x ∷ xs, refl, rw (q, b) refl, rw b refl)
        | inr b ↦
            let r =
              ordered_loop-place rounds h x xs w e c.2 (ground (arith, d), d.1.1)
                (ground (arith, n)) (omega (arith, f)) in
            (
              x ∷ r.0,
              r.1,
              ap (λ z. x ∷ z) r.2,
              rw (list_next-place h u x xs w c n, q, b) r.3,
              rw b (ap (λ z. x ∷ z) r.4),
            )
      ]

  -- An element put into a sorted sequence at its place leaves it sorted.
  insert_sorted-Sorted :
      IsOrder less → (e : ℕ) (xs : List ℕ) → Sorted xs → Sorted (insert_sorted e xs)
  insert_sorted-Sorted o e [] s = tt
  insert_sorted-Sorted o e (x ∷ []) s = elim (Bool-cases (less e x)) [
    | inl b ↦ rw b (ground (arith, o.transitive e x e, o.irreflexive e), tt)
    | inr b ↦ rw b (b, tt)
  ]
  insert_sorted-Sorted o e (x ∷ y ∷ ys) s = elim (Bool-cases (less e x)) [
    | inl b ↦ rw b (ground (arith, o.transitive e x e, o.irreflexive e), s)
    | inr b ↦ elim (Bool-cases (less e y)) [
      | inl c ↦ rw (b, c) (b, (ground (arith, o.transitive e y e, o.irreflexive e), s.1))
      | inr c ↦ rw (b, c) (s.0, rw c at (insert_sorted-Sorted o e (y ∷ ys) s.1))
    ]
  ]

  -- `list_insert_ordered` of a fresh element puts it before the first element that it is less than,
  -- after at most one round more than there are elements, and keeps a sorted list sorted.
  pub list_insert_ordered-Sorted :
      IsOrder less
      → (rounds : ℕ) (h : Heap) (l e : ℕ) (xs : List ℕ) → IsList h l xs
      → IsFresh e l xs
      → Sorted xs
      → length xs < rounds
      → (h' : Heap) × (list_insert_ordered less rounds h l e ≡ ok h')
        × IsList h' l (insert_sorted e xs)
        × Sorted (insert_sorted e xs)
  unfolding list_insert_ordered list_begin list_end
  list_insert_ordered-Sorted o rounds h l e xs i f s b =
      let r = ordered_loop-place rounds h l xs (tail_of l) e i.chain i.once.1 i.exists b in
      let t =
        list_insert-IsList h l r.0 r.1 e (subst (IsList h l) r.2 i) (subst (IsFresh e l) r.2 f) in
      (
        t.0,
        rw
            (
              ne→== l null (λ z. ground (arith, z, i.exists)),
              ne→== e null (λ z. ground (arith, z, f)),
              next-place h l xs i,
              r.3,
            )
            t.1,
        rw r.4 t.2,
        insert_sorted-Sorted o e xs s,
      )

-- ===== src/Links/Deque.antt =====
-- A list of lib/kernel/list.c as a sequence: the invariant of its links, and insertion and removal
-- anywhere in it.
use project.Base.{
  ℕ, ◌≡◌, ◌≢◌, refl, ap, ◌∙◌, false, List, [], ◌∷◌, ◌++◌, arith, ◌==◌, if◌then◌else◌, ok, inl, inr,
  mem, Nodup, mem_insert, mem-append_both, Nodup-insert, Nodup-remove, Bool-cases, ne→==,
}
use project.Paging.{null}
use project.Links.{
  Heap, set_prev, set_next, tail_of, is_interior, is_tail, list_insert, list_remove,
}
use project.Links.Chain.{
  Linked, place, Linked-append, Linked-split, Rest-frame, Linked-redirect, prev-mem, IsApart,
  Nodup-IsApart, place-mem,
}

-- The list at `l` holds the elements `xs` in this order: the links lead from its head through them
-- to its tail and back, no address stands twice and none is null.
pub record IsList (h : Heap) (l : ℕ) (xs : List ℕ) : Type 0 where
  pub chain : Linked h l xs (tail_of l)
  pub first : h.prev l ≡ null
  pub last : h.next (tail_of l) ≡ null
  pub once : Nodup (l ∷ tail_of l ∷ xs)
  pub exists : mem null (l ∷ tail_of l ∷ xs) ≡ false

-- an element that stands in no place of the list
abbrev pub IsFresh : (e l : ℕ) → List ℕ → Type 0
IsFresh e l xs = mem e (null ∷ l ∷ tail_of l ∷ xs) ≡ false

-- `e` linked in before `before`
abbrev pub inserted : Heap → (before e : ℕ) → Heap
inserted h before e =
    let h2 = set_next (set_prev h e (h.prev before)) e before in
    set_prev (set_next h2 (h2.prev before) e) before e

abbrev pub removed : Heap → (e : ℕ) → Heap
removed h e = let h1 = set_next h (h.prev e) (h.next e) in set_prev h1 (h1.next e) (h1.prev e)

list_insert-inserted :
    (h : Heap) (before e : ℕ)
    → before ≢ null
    → h.prev before ≢ null
    → e ≢ null
    → list_insert h before e ≡ ok (inserted h before e)
unfolding list_insert is_interior is_tail
list_insert-inserted h before e b p n = elim (Bool-cases (h.next before == null)) [
  | inl c ↦ rw (ne→== before _ b, ne→== _ _ p, ne→== e _ n, c) refl
  | inr c ↦ rw (ne→== before _ b, ne→== _ _ p, ne→== e _ n, c) refl
]

list_remove-removed :
    (h : Heap) (e : ℕ)
    → e ≢ null
    → h.prev e ≢ null
    → h.next e ≢ null
    → list_remove h e ≡ ok (h.next e, removed h e)
unfolding list_remove is_interior
list_remove-removed h e n p x = elim (Bool-cases (e == h.prev e)) [
  | inl c ↦ rw (ne→== e _ n, ne→== _ _ p, ne→== _ _ x, c) refl
  | inr c ↦ rw (ne→== e _ n, ne→== _ _ p, ne→== _ _ x, c) refl
]

inserted-next :
    (h : Heap) (before e a : ℕ)
    → (inserted h before e).next a
      ≡ (if a == h.prev before then e else if a == e then before else h.next a)
inserted-next h before e a = ground arith

inserted-prev :
    (h : Heap) (before e a : ℕ)
    → (inserted h before e).prev a
      ≡ (if a == before then e else if a == e then h.prev before else h.prev a)
inserted-prev h before e a = ground arith

-- A chain with `e` linked in before the first of `ws`.
inserted-Linked :
    (h : Heap) (u : ℕ) (vs ws : List ℕ) (w e : ℕ)
    → Linked h u (vs ++ ws) w
    → IsApart u vs ws w
    → mem e (u ∷ vs) ≡ false
    → mem e (w ∷ ws) ≡ false
    → Linked (inserted h (place ws w) e) u (vs ++ (e ∷ ws)) w
inserted-Linked h u vs ws w e c d f g =
    let p = Linked-split h u vs ws w c in
    let before = place ws w in
    let h' = inserted h before e in
    let n = inserted-next h before e in
    let r = inserted-prev h before e in
    let k = prev-mem h u vs before p.0 in
    let b = place-mem ws w in
    Linked-append h' u vs (e ∷ ws) w
      (Linked-redirect h h' u vs before e p.0 d.left (λ a m. n a ∙ ground (arith, f, m))
        (λ a m. r a ∙ ground (arith, f, m, b, d.elsewhere a)) (r e ∙ ground (arith, b, g)))
      (Linked-append h' e [] ws w (n e ∙ ground (arith, k, f), r before ∙ ground arith)
        (Rest-frame h h' ws w d.right (λ a m. n a ∙ ground (arith, k, g, m, d.elsewhere a))
          (λ a m ne. r a ∙ ground (arith, ne, m, g)) p.1))

removed-next :
    (h : Heap) (e a : ℕ) → (removed h e).next a ≡ (if a == h.prev e then h.next e else h.next a)
removed-next h e a = ground arith

removed-prev :
    (h : Heap) (e a : ℕ) → (removed h e).prev a ≡ (if a == h.next e then h.prev e else h.prev a)
removed-prev h e a = ground arith

-- A chain without `e`.
removed-Linked :
    (h : Heap) (u : ℕ) (vs ws : List ℕ) (w e : ℕ)
    → Linked h u (vs ++ (e ∷ ws)) w
    → IsApart u vs ws w
    → mem e (u ∷ vs) ≡ false
    → mem e (w ∷ ws) ≡ false
    → Linked (removed h e) u (vs ++ ws) w
removed-Linked h u vs ws w e c d f g =
    let p = Linked-split h u vs (e ∷ ws) w c in
    let q = Linked-split h e [] ws w p.1 in
    let h' = removed h e in
    let n = removed-next h e in
    let r = removed-prev h e in
    let k = prev-mem h u vs e p.0 in
    let b = place-mem ws w in
    Linked-append h' u vs ws w
      (Linked-redirect h h' u vs e (place ws w) p.0 d.left (λ a m. n a ∙ ground (arith, q.0.0))
        (λ a m. r a ∙ ground (arith, q.0.0, m, b, d.elsewhere a))
        (r (place ws w) ∙ ground (arith, q.0.0)))
      (Rest-frame h h' ws w d.right (λ a m. n a ∙ ground (arith, k, m, d.elsewhere a))
        (λ a m ne. r a ∙ ground (arith, ne, q.0.0)) q.1)

module _ (h : Heap) (l : ℕ) (vs ws : List ℕ) (e : ℕ) where
  -- `list_insert` of a fresh element before any place of a list puts it there, and there only.
  pub list_insert-IsList :
      IsList h l (vs ++ ws)
      → IsFresh e l (vs ++ ws)
      → (h' : Heap) × (list_insert h (place ws (tail_of l)) e ≡ ok h')
        × IsList h' l (vs ++ (e ∷ ws))
  list_insert-IsList i f =
      let before = place ws (tail_of l) in
      let k = prev-mem h l vs before (Linked-split h l vs ws (tail_of l) i.chain).0 in
      let b = place-mem ws (tail_of l) in
      let m = λ (a : ℕ). mem-append_both a vs ws in
      let d = Nodup-IsApart l vs ws (tail_of l) i.once in
      (
        inserted h before e,
        list_insert-inserted h before e (λ z. ground (arith, z, b, i.exists, m null))
            (λ z. ground (arith, z, k, i.exists, m null)) (λ z. ground (arith, z, f)),
        record {
          chain =
              inserted-Linked h l vs ws (tail_of l) e i.chain d (ground (arith, f, m e))
                (ground (arith, f, m e));
          first = inserted-prev h before e l ∙ ground (arith, b, f, i.first, i.once.0, m l);
          last =
              inserted-next h before e (tail_of l)
              ∙ ground (arith, k, f, i.last, i.once, m (tail_of l));
          once = (
            ground (arith, mem_insert l e vs ws, i.once.0, f),
            (
              ground (arith, mem_insert (tail_of l) e vs ws, i.once.1.0, f),
              Nodup-insert e vs ws i.once.1.1 (ground (arith, f)),
            ),
          );
          exists = ground (arith, mem_insert null e vs ws, i.exists, f);
        },
      )

  -- `list_remove` of an element of a list takes it out of its place and returns the one behind it.
  pub list_remove-IsList :
      IsList h l (vs ++ (e ∷ ws))
      → (h' : Heap) × (list_remove h e ≡ ok (place ws (tail_of l), h')) × IsList h' l (vs ++ ws)
  list_remove-IsList i =
      let p = Linked-split h l vs (e ∷ ws) (tail_of l) i.chain in
      let q = Linked-split h e [] ws (tail_of l) p.1 in
      let k = prev-mem h l vs e p.0 in
      let b = place-mem ws (tail_of l) in
      let m = λ (a : ℕ). mem-append_both a vs ws in
      let m' = λ (a : ℕ). mem_insert a e vs ws in
      let t = Nodup-remove e vs ws i.once.1.1 in
      let once : Nodup (l ∷ tail_of l ∷ (vs ++ ws)) =
        (ground (arith, m' l, i.once.0), (ground (arith, m' (tail_of l), i.once.1.0), t.0)) in
      let d = Nodup-IsApart l vs ws (tail_of l) once in
      (
        removed h e,
        list_remove-removed h e (λ z. ground (arith, z, i.exists, m' null))
              (λ z. ground (arith, z, k, i.exists, m null, m' null))
              (λ z. ground (arith, z, q.0.0, b, i.exists, m null, m' null))
            ∙ ap (λ x. ok (x, removed h e)) q.0.0,
        record {
          chain =
              removed-Linked h l vs ws (tail_of l) e i.chain d
                (ground (arith, t.1, m e, m' l, i.once.0))
                (ground (arith, t.1, m e, m' (tail_of l), i.once.1.0));
          first = removed-prev h e l ∙ ground (arith, q.0.0, b, i.first, once.0, m l);
          last = removed-next h e (tail_of l) ∙ ground (arith, k, i.last, once, m (tail_of l));
          once = once;
          exists = ground (arith, m' null, i.exists);
        },
      )

-- ===== src/Links/Refine.antt =====
-- Lists of lib/kernel/list.c against sequences: each operation on the heap does what it says to a
-- plain list of addresses, and so does any run of operations.
use project.Base.{
  ℕ, ◌≡◌, ◌≢◌, refl, sym, ap, true, false, List, [], ◌∷◌, ◌++◌, arith, ◌==◌, ok, ℕ_discrete, mem,
  ne→==, eq→==, append-nil, subst,
}
use project.Paging.{null}
use project.Links.{
  Heap, set_prev, set_next, list_init, tail_of, list_begin, list_end, list_empty, list_front,
  list_back, list_push_front, list_push_back, list_pop_front, list_pop_back,
}
use project.Links.Abstract.{
  Operation, push_front, push_back, insert, pop_front, pop_back, remove, perform, performs, is_nil,
  last_of, before_last, put_before, erase, follower, result, permitted, results, all_permitted,
}
use project.Links.Chain.{place, Linked-split}
use project.Links.Deque.{IsList, IsFresh, list_insert-IsList, list_remove-IsList}

-- the split of a sequence at its last element
last_split : (x : ℕ) (xs : List ℕ) → before_last x xs ++ (last_of x xs ∷ []) ≡ x ∷ xs
last_split x [] = refl
last_split x (y ∷ ys) = ap (λ r. x ∷ r) (last_split y ys)

put_before-absent :
    (before e : ℕ) (xs : List ℕ) → mem before xs ≡ false → put_before before e xs ≡ xs ++ (e ∷ [])
put_before-absent before e [] m = refl
put_before-absent before e (x ∷ xs) m =
    rw (ne→== before x (λ z. ground (arith, z, m)))
      (ap (λ r. x ∷ r) (put_before-absent before e xs (ground (arith, m))))

is_nil-append : (xs : List ℕ) (x : ℕ) → is_nil (xs ++ (x ∷ [])) ≡ false
is_nil-append [] x = refl
is_nil-append (y ∷ ys) x = refl

-- the split of a sequence at one of its elements
erase_split :
    (d e e' : ℕ) (xs : List ℕ)
    → mem e xs ≡ true
    → (vs ws : List ℕ) × (xs ≡ vs ++ (e ∷ ws))
      × (erase e xs ≡ vs ++ ws)
      × (follower d e xs ≡ place ws d)
      × (put_before e e' xs ≡ vs ++ (e' ∷ e ∷ ws))
erase_split d e e' [] m = ground arith
erase_split d e e' (x ∷ xs) m = elim (ℕ_discrete e x) [
  | yes p ↦
      let q = eq→== e x p in
      ([], xs, ap (λ z. z ∷ xs) (sym p), rw q refl, rw q refl, rw q (ap (λ z. e' ∷ z ∷ xs) (sym p)))
  | no p ↦
      let q = ne→== e x p in
      let r = erase_split d e e' xs (ground (arith, m, p)) in
      (
        x ∷ r.0,
        r.1,
        ap (λ z. x ∷ z) r.2,
        rw q (ap (λ z. x ∷ z) r.3),
        rw q r.4,
        rw q (ap (λ z. x ∷ z) r.5),
      )
]

module _ (h : Heap) (l : ℕ) where
  exists-head : (xs : List ℕ) → IsList h l xs → (l == null) ≡ false
  exists-head xs i = ground (arith, i.exists)

  -- the first element of a list is what its head leads to
  pub next-place : (xs : List ℕ) → IsList h l xs → h.next l ≡ place xs (tail_of l)
  next-place xs i = (Linked-split h l [] xs (tail_of l) i.chain).0.0

  pub list_push_front-IsList :
      (xs : List ℕ) (e : ℕ)
      → IsList h l xs
      → IsFresh e l xs
      → (h' : Heap) × (list_push_front h l e ≡ ok h') × IsList h' l (e ∷ xs)
  unfolding list_push_front list_begin
  list_push_front-IsList xs e i f =
      let r = list_insert-IsList h l [] xs e i f in
      (r.0, rw (exists-head xs i, next-place xs i) r.1, r.2)

  pub list_push_back-IsList :
      (xs : List ℕ) (e : ℕ)
      → IsList h l xs
      → IsFresh e l xs
      → (h' : Heap) × (list_push_back h l e ≡ ok h') × IsList h' l (xs ++ (e ∷ []))
  unfolding list_push_back list_end
  list_push_back-IsList xs e i f =
      let r = list_insert-IsList h l xs [] e (rw append-nil i) (rw append-nil f) in
      (r.0, rw (exists-head xs i) r.1, r.2)

  -- `list_empty` tells whether the sequence is empty.
  pub list_empty-IsList : (xs : List ℕ) → IsList h l xs → list_empty h l ≡ ok (is_nil xs)
  unfolding list_empty list_begin list_end
  list_empty-IsList [] i = rw (exists-head [] i, next-place [] i, eq→== (tail_of l) _ refl) refl
  list_empty-IsList (x ∷ xs) i =
      rw
        (
          exists-head (x ∷ xs) i,
          next-place (x ∷ xs) i,
          ne→== x (tail_of l) (λ e. ground (arith, e, i.once)),
        )
        refl

  pub list_pop_front-IsList :
      (x : ℕ) (xs : List ℕ)
      → IsList h l (x ∷ xs)
      → (h' : Heap) × (list_pop_front h l ≡ ok (x, h')) × IsList h' l xs
  unfolding list_pop_front list_front
  list_pop_front-IsList x xs i =
      let r = list_remove-IsList h l [] xs x i in
      (r.0, rw (list_empty-IsList (x ∷ xs) i, next-place (x ∷ xs) i, r.1) refl, r.2)

  pub list_pop_back-IsList :
      (xs : List ℕ) (x : ℕ)
      → IsList h l (xs ++ (x ∷ []))
      → (h' : Heap) × (list_pop_back h l ≡ ok (x, h')) × IsList h' l xs
  unfolding list_pop_back list_back
  list_pop_back-IsList xs x i =
      let r = list_remove-IsList h l xs [] x i in
      let last = (Linked-split h l xs (x ∷ []) (tail_of l) i.chain).1.1 in
      (
        r.0,
        rw (list_empty-IsList (xs ++ (x ∷ [])) i, is_nil-append xs x, last, r.1) refl,
        rw append-nil at r.2,
      )

-- Each permitted operation on a list on the heap returns what it returns on the sequence, and leaves
-- the heap with that sequence.
pub perform-result :
    (h : Heap) (l : ℕ) (xs : List ℕ) (op : Operation)
    → IsList h l xs
    → permitted l xs op ≡ true
    → (h' : Heap) × (perform h l op ≡ ok ((result l xs op).0, h')) × IsList h' l (result l xs op).1
unfolding perform permitted result
perform-result h l xs (push_front e) i m =
    let r = list_push_front-IsList h l xs e i (ground (arith, m)) in (r.0, rw r.1 refl, r.2)
perform-result h l xs (push_back e) i m =
    let r = list_push_back-IsList h l xs e i (ground (arith, m)) in (r.0, rw r.1 refl, r.2)
perform-result h l xs (insert before e) i m = elim (ℕ_discrete before (tail_of l)) [
  | yes p ↦
      let r =
        list_insert-IsList h l xs [] e (rw append-nil i)
          (subst (IsFresh e l) (sym (append-nil xs)) (ground (arith, m))) in
      let absent = put_before-absent before e xs (ground (arith, p, i.once)) in
      (r.0, rw (p, r.1) refl, rw absent r.2)
  | no p ↦
      let s = erase_split (tail_of l) before e xs (ground (arith, m)) in
      let r =
        list_insert-IsList h l s.0 (before ∷ s.1) e (subst (IsList h l) s.2 i)
          (subst (IsFresh e l) s.2 (ground (arith, m))) in
      (r.0, rw r.1 refl, rw s.5 r.2)
]
perform-result h l [] pop_front i m = ground (arith, m)
perform-result h l (x ∷ xs) pop_front i m = list_pop_front-IsList h l x xs i
perform-result h l [] pop_back i m = ground (arith, m)
perform-result h l (x ∷ xs) pop_back i m =
    list_pop_back-IsList h l (before_last x xs) (last_of x xs)
      (subst (IsList h l) (sym (last_split x xs)) i)
perform-result h l xs (remove e) i m =
    let s = erase_split (tail_of l) e e xs m in
    let r = list_remove-IsList h l s.0 s.1 e (subst (IsList h l) s.2 i) in
    (r.0, rw s.4 r.1, rw s.3 r.2)

-- Any run of permitted operations on a list on the heap returns the elements that the same run
-- returns on the sequence of its elements, without a failed assertion, and leaves the heap with the
-- sequence that it leaves there.
pub performs-results :
    (ops : List Operation) (h : Heap) (l : ℕ) (xs : List ℕ)
    → IsList h l xs
    → all_permitted l xs ops ≡ true
    → (h' : Heap) × (performs h l ops ≡ ok ((results l xs ops).0, h'))
      × IsList h' l (results l xs ops).1
unfolding performs results all_permitted
performs-results [] h l xs i m = (h, refl, i)
performs-results (op ∷ ops) h l xs i m =
    let r = perform-result h l xs op i (ground (arith, m)) in
    let rs = performs-results ops r.0 l (result l xs op).1 r.2 (ground (arith, m)) in
    (rs.0, rw (r.1, rs.1) refl, rs.2)

-- `list_init` of an address makes the list there empty, whatever the heap holds.
pub list_init-IsList :
    (h : Heap) (l : ℕ) → l ≢ null → (h' : Heap) × (list_init h l ≡ ok h') × IsList h' l []
unfolding list_init
list_init-IsList h l n = (
  set_next (set_prev (set_next (set_prev h l null) l (tail_of l)) (tail_of l) l) (tail_of l) null,
  rw (ne→== l null n) refl,
  record {
    chain = (ground arith, ground arith);
    first = ground arith;
    last = ground arith;
    once = (ground arith, (refl, tt));
    exists = ground (arith, n);
  },
)

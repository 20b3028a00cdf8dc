-- ===== src/Links/Chain.antt =====
-- Chains of list elements on the heap (lib/kernel/list.c): the elements of a list in order, each
-- linked to its neighbours both ways, and what a change of one link does to them.
use project.Base.{
  ℕ, ◌≡◌, ◌≢◌, ◌∙◌, true, false, List, [], ◌∷◌, ◌++◌, arith, ◌==◌, if◌then◌else◌, mem, Nodup,
  mem-append_both, Nodup-append_apart, Nodup-append_left, Nodup-append_right,
}
use project.Links.{Heap}

-- From `u` the links lead through `vs` to `w`, and back.
abbrev pub Linked : Heap → (u : ℕ) → (vs : List ℕ) → (w : ℕ) → Type 0
Linked h u [] w = (h.next u ≡ w) × (h.prev w ≡ u)
Linked h u (v ∷ vs) w = (h.next u ≡ v) × (h.prev v ≡ u) × Linked h v vs w

-- the first of `ws`, or `w` behind them
abbrev pub place : List ℕ → ℕ → ℕ
place [] w = w
place (x ∷ ws) w = x

-- The links lead from the first of `ws` through the others to `w`.
abbrev pub Rest : Heap → (ws : List ℕ) → (w : ℕ) → Type 0
Rest h [] w = Unit
Rest h (x ∷ ws) w = Linked h x ws w

pub Linked-append :
    (h : Heap) (u : ℕ) (vs ws : List ℕ) (w : ℕ)
    → Linked h u vs (place ws w)
    → Rest h ws w
    → Linked h u (vs ++ ws) w
Linked-append h u [] [] w a b = a
Linked-append h u [] (x ∷ ws) w a b = (a.0, a.1, b)
Linked-append h u (v ∷ vs) ws w a b = (a.0, a.1, Linked-append h v vs ws w a.2 b)

pub Linked-split :
    (h : Heap) (u : ℕ) (vs ws : List ℕ) (w : ℕ)
    → Linked h u (vs ++ ws) w
    → Linked h u vs (place ws w) × Rest h ws w
Linked-split h u [] [] w a = (a, tt)
Linked-split h u [] (x ∷ ws) w a = ((a.0, a.1), a.2)
Linked-split h u (v ∷ vs) ws w a = let b = Linked-split h v vs ws w a.2 in ((a.0, a.1, b.0), b.1)

-- the links that a chain rests on
pub Linked-frame :
    (h h' : Heap) (u : ℕ) (vs : List ℕ) (w : ℕ)
    → ((a : ℕ) → mem a (u ∷ vs) ≡ true → h'.next a ≡ h.next a)
    → ((a : ℕ) → mem a (w ∷ vs) ≡ true → h'.prev a ≡ h.prev a)
    → Linked h u vs w
    → Linked h' u vs w
Linked-frame h h' u [] w n p c = (ground (arith, n u, c.0), ground (arith, p w, c.1))
Linked-frame h h' u (v ∷ vs) w n p c = (
  ground (arith, n u, c.0),
  ground (arith, p v, c.1),
  Linked-frame h h' v vs w (λ a m. n a (ground (arith, m))) (λ a m. p a (ground (arith, m))) c.2,
)

-- what follows a place where the link back changes
pub Rest-frame :
    (h h' : Heap) (ws : List ℕ) (w : ℕ)
    → Nodup (w ∷ ws)
    → ((a : ℕ) → mem a ws ≡ true → h'.next a ≡ h.next a)
    → ((a : ℕ) → mem a (w ∷ ws) ≡ true → a ≢ place ws w → h'.prev a ≡ h.prev a)
    → Rest h ws w
    → Rest h' ws w
Rest-frame h h' [] w d n p c = tt
Rest-frame h h' (x ∷ ws) w d n p c =
    Linked-frame h h' x ws w n (λ a m. p a (ground (arith, m)) (λ e. ground (arith, m, d))) c

-- What comes before the end of a chain stands on it.
pub prev-mem :
    (h : Heap) (u : ℕ) (vs : List ℕ) (w : ℕ) → Linked h u vs w → mem (h.prev w) (u ∷ vs) ≡ true
prev-mem h u [] w c = ground (arith, c.1)
prev-mem h u (v ∷ vs) w c = ground (arith, prev-mem h v vs w c.2)

-- A chain to `x` leads to `e` when the link to `x` is turned to `e`.
pub Linked-redirect :
    (h h' : Heap) (u : ℕ) (vs : List ℕ) (x e : ℕ)
    → Linked h u vs x
    → Nodup (u ∷ vs)
    → ((a : ℕ) → mem a (u ∷ vs) ≡ true → h'.next a ≡ (if a == h.prev x then e else h.next a))
    → ((a : ℕ) → mem a vs ≡ true → h'.prev a ≡ h.prev a)
    → h'.prev e ≡ h.prev x
    → Linked h' u vs e
Linked-redirect h h' u [] x e c d n p q = (ground (arith, n u, c.1), q ∙ c.1)
Linked-redirect h h' u (v ∷ vs) x e c d n p q = (
  ground (arith, n u, c.0, d.0, prev-mem h v vs x c.2),
  ground (arith, p v, c.1),
  Linked-redirect h h' v vs x e c.2 d.1 (λ a m. n a (ground (arith, m)))
      (λ a m. p a (ground (arith, m))) q,
)

-- the two ends and the two parts of a chain, each address in one place
pub record IsApart (u : ℕ) (vs ws : List ℕ) (w : ℕ) : Type 0 where
  pub left : Nodup (u ∷ vs)
  pub right : Nodup (w ∷ ws)
  pub elsewhere : (a : ℕ) → mem a (u ∷ vs) ≡ true → mem a (w ∷ ws) ≡ false

pub Nodup-IsApart :
    (u : ℕ) (vs ws : List ℕ) (w : ℕ) → Nodup (u ∷ w ∷ (vs ++ ws)) → IsApart u vs ws w
Nodup-IsApart u vs ws w d = record {
  left = (ground (arith, d.0, mem-append_both u vs ws), Nodup-append_left vs ws d.1.1);
  right = (ground (arith, d.1.0, mem-append_both w vs ws), Nodup-append_right vs ws d.1.1);
  elsewhere = λ a m. ground (
    arith,
    d.0,
    d.1.0,
    mem-append_both u vs ws,
    mem-append_both w vs ws,
    Nodup-append_apart vs ws d.1.1 a,
  );
}

pub place-mem : (ws : List ℕ) (w : ℕ) → mem (place ws w) (w ∷ ws) ≡ true
place-mem [] w = ground arith
place-mem (x ∷ ws) w = ground arith

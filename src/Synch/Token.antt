-- ===== src/Synch/Token.antt =====
-- The lock's one token, which its semaphore or one thread has.
use project.Base.{
  ℕ, ◌-◌, ◌≡◌, ◌≢◌, refl, sym, ◌∙◌, ◌⊎◌, inl, inr, true, false, ◌==◌, if◌then◌else◌, arith, eq→==,
  ne→==, ℕ_discrete, add32,
}
use project.Synch.Lock.{Stage, owns}

-- where all threads are when one of them moves
abbrev pub moved : (ℕ → Stage) → ℕ → Stage → ℕ → Stage
moved stage c g t = if t == c then g else stage t

-- The token is with the semaphore, whose value is then 1, or with exactly one thread.
abbrev pub Token : (value : ℕ) → (ℕ → Stage) → Type 0
Token value stage =
    ((value ≡ 1) × ((t : ℕ) → owns (stage t) ≡ false))
    ⊎ ((o : ℕ) × (value ≡ 0) × (owns (stage o) ≡ true) × ((t : ℕ) → owns (stage t) ≡ true → t ≡ o))

module _ (value : ℕ) (stage : ℕ → Stage) where
  pub Token-unique :
      Token value stage → (t u : ℕ) → owns (stage t) ≡ true → owns (stage u) ≡ true → t ≡ u
  Token-unique (inl (e, none_owns)) t u p q = absurd (cc (none_owns t))
  Token-unique (inr (o, e, h, only)) t u p q = only t p ∙ sym (only u q)

  -- while the semaphore has the token, no thread does
  pub Token-free : Token value stage → value ≢ 0 → (t : ℕ) → owns (stage t) ≡ false
  Token-free (inl (e, none_owns)) ne t = none_owns t
  Token-free (inr (o, e, h, only)) ne t = absurd (ne e)

  module _ (c : ℕ) (g : Stage) where
    owns-moved : (t : ℕ) → owns g ≡ owns (stage c) → owns (moved stage c g t) ≡ owns (stage t)
    owns-moved t h = elim (ℕ_discrete t c) [
      | yes e ↦ rw (e, eq→== c c refl) h
      | no ne ↦ rw (ne→== t c ne) refl
    ]

    -- a move that neither takes nor gives the token
    pub Token-keep : owns g ≡ owns (stage c) → Token value stage → Token value (moved stage c g)
    Token-keep h (inl (e, none_owns)) = inl (e, λ t. owns-moved t h ∙ none_owns t)
    Token-keep h (inr (o, e, p, only)) =
        inr (o, e, owns-moved o h ∙ p, λ t q. only t (sym (owns-moved t h) ∙ q))

    pub Token-take :
        value ≢ 0 → owns g ≡ true → Token value stage → Token (value - 1) (moved stage c g)
    Token-take h p (inl (e, none_owns)) =
        inr (c, omega arith, rw (eq→== c c refl) p, λ t q. ground (arith, none_owns t))
    Token-take h p (inr (o, e, q, only)) = absurd (h e)

    pub Token-give :
        owns (stage c) ≡ true
        → owns g ≡ false
        → Token value stage
        → Token (add32 value 1) (moved stage c g)
    Token-give h p (inl (e, none_owns)) = absurd (cc (none_owns c))
    Token-give h p (inr (o, e, q, only)) = inl (rw e refl, λ t. ground (arith, only t, only c))

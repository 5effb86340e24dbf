-- ===== src/RateLimit/Budget.antt =====
-- How many requests a bucket lets pass.
use nguyen_dinh_b.Prelude.{
  ℕ, ◌+◌, ◌-◌, ◌*◌, ◌≤◌, ◌≡◌, sym, ap, ◌∙◌, inl, inr, List, [], ◌∷◌, arith, leb, if◌then◌else◌,
  leb→le, Bool-cases,
}
use native.Mathlib.Nat.{add-mul}
use nguyen_dinh_b.Python.{ok, ok-injective, raise_if-ok}
use nguyen_dinh_b.RateLimit.{minute, ToolRateLimiter, new_limiter, refilled, attempt, attempts}

-- The times do not go back, from `start` on, and end at `last`.
abbrev pub IsClock : (start last : ℕ) → List ℕ → Type 0
IsClock start last [] = start ≤ last
IsClock start last (now ∷ times) = (start ≤ now) × IsClock now last times

IsClock-le : (start last : ℕ) (times : List ℕ) → IsClock start last times → start ≤ last
IsClock-le start last [] h = h
IsClock-le start last (now ∷ times) (h, k) = omega (arith, h, IsClock-le now last times k)

-- the parts that one round takes, and what is left
attempt_balance :
    (now : ℕ) (l : ToolRateLimiter)
    → (if (attempt now l).0 then 1 else 0) * minute + (attempt now l).1.tokens
      ≤ l.tokens + (now - l.updated_at) * l.rate
unfolding attempt
attempt_balance now l = elim (Bool-cases (leb minute (refilled now l))) [
  | inl e ↦ let le = leb→le minute (refilled now l) e in rw e (omega (arith, le))
  | inr e ↦ rw e (omega arith)
]

mul_sub : (a b c r : ℕ) → a ≤ b → b ≤ c → (b - a) * r + (c - b) * r ≡ (c - a) * r
mul_sub a b c r h k =
    let sum : (b - a) + (c - b) ≡ c - a = omega arith in
    sym (add-mul (b - a) (c - b) r) ∙ ap (λ t. t * r) sum

-- The requests that pass are paid for by what is in the bucket and by what flows in.
attempts_balance :
    (times : List ℕ) (l : ToolRateLimiter) (last : ℕ)
    → IsClock l.updated_at last times
    → (attempts times l).0 * minute ≤ l.tokens + (last - l.updated_at) * l.rate
unfolding attempts attempt
attempts_balance [] l last h = omega arith
attempts_balance (now ∷ times) l last (h, k) =
    let one = (if (attempt now l).0 then 1 else 0) in
    let split : (one + (attempts times (attempt now l).1).0) * minute
        ≡ one * minute + (attempts times (attempt now l).1).0 * minute =
      add-mul one _ minute in
    let later : (attempts times (attempt now l).1).0 * minute
        ≤ (attempt now l).1.tokens + (last - now) * l.rate =
      attempts_balance times (attempt now l).1 last k in
    omega (
      arith,
      split,
      later,
      attempt_balance now l,
      mul_sub l.updated_at now last l.rate h (IsClock-le now last times k),
    )

-- Over any rounds of `wait` between the making of the limiter and the time `last`, as long as the clock
-- does not go back: the requests that pass number at most `burst` and `rate` more for each minute.
pub attempts-within_budget :
    (rate burst start last : ℕ) (times : List ℕ) (l : ToolRateLimiter)
    → new_limiter rate burst start ≡ ok l
    → IsClock start last times
    → (attempts times l).0 * minute ≤ burst * minute + (last - start) * rate
unfolding new_limiter
attempts-within_budget rate burst start last times l made clock =
    let fresh = raise_if-ok _ _ _ made in
    rw (← ok-injective fresh) (attempts_balance times _ last clock)

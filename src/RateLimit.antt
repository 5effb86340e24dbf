-- ===== src/RateLimit.antt =====
-- probe/rate_limit.py: the token bucket before every request. The code computes in floats; here the
-- same steps are taken in whole numbers. Time is in units of which a minute has `minute`, and the fill
-- is in parts of which a token has `minute`, so that a bucket of `rate` requests per minute gains
-- `rate` parts per unit of time.
pub mod Budget
use nguyen_dinh_b.Prelude.{
  ℕ, zero, suc, ◌+◌, ◌-◌, ◌*◌, ◌≤◌, ◌<◌, min, max, String, ◌≡◌, refl, sym, ap, ◌∙◌, ◌≢◌, ◌↔◌, ◌⊎◌,
  inl, inr, Bool, true, false, not, ◌&&◌, ◌||◌, false≢true, Option, none, some, List, [], ◌∷◌, ◌++◌,
  map, arith, ◌==◌, eq_iff, eq_refl, ltb, leb, eqb, if◌then◌else◌, leb→le, ltb→lt, Bool-cases,
  Option-cases, is_some, length, length-append, is_empty, All, Any, All-append, All-map, Any-map,
  Any-All, any, all, any-false, keep, find_first, find_first-some, find_first-none, codes, mem_str,
  mem_str-Any, Any-mem_str, has_code, has_prefix, ne_of_test, has_infix, is_blank, split_space,
  strip, concat, repeat,
}
use nguyen_dinh_b.Python.{Result, ok, value_error, raise_if, ◌>>◌}

abbrev pub minute : ℕ
minute = 60000

pub record ToolRateLimiter : Type 0 where
  pub rate : ℕ
  pub capacity : ℕ
  pub tokens : ℕ
  pub updated_at : ℕ

-- `ToolRateLimiter(requests_per_minute, burst)` at the time `now`
unfoldable pub new_limiter : (requests_per_minute burst now : ℕ) → Result ToolRateLimiter
new_limiter requests_per_minute burst now = do
  raise_if (leb requests_per_minute 0 || leb burst 0) value_error
  ok (record {
    rate = requests_per_minute;
    capacity = burst * minute;
    tokens = burst * minute;
    updated_at = now;
  })

-- the fill after the time since the last update; a clock that has gone back adds nothing
abbrev pub refilled : ℕ → ToolRateLimiter → ℕ
refilled now l = min l.capacity (l.tokens + (now - l.updated_at) * l.rate)

-- One round of the loop of `wait` at the time `now`: whether it lets the request pass.
unfoldable pub attempt : ℕ → ToolRateLimiter → Bool × ToolRateLimiter
attempt now l =
    let tokens = refilled now l in
    let passes = leb minute tokens in
    (
      passes,
      record {
        rate = l.rate;
        capacity = l.capacity;
        tokens = if passes then tokens - minute else tokens;
        updated_at = now;
      },
    )

-- The rounds at the times that the clock shows, of one or of many calls of `wait`: how many requests
-- have passed.
unfoldable pub attempts : List ℕ → ToolRateLimiter → ℕ × ToolRateLimiter
attempts [] l = (0, l)
attempts (now ∷ times) l =
    let (passes, l1) = attempt now l in
    let (count, l2) = attempts times l1 in ((if passes then 1 else 0) + count, l2)

-- ===== src/RateLimit.antt =====
-- internal/middleware/ratelimit.go: the in-memory limiter of requests by key. The map is the list of
-- its entries; times are in one unit, and the code's clock is the argument `now`.
pub mod Window
mod Tests
use indelible.Common.{
  ℕ, ◌+◌, ◌-◌, Bool, true, false, not, ◌&&◌, List, [], ◌∷◌, ◌++◌, Option, none, some, ltb, leb,
  ◌==◌, if◌then◌else◌, find, Bytes, bytes_eq,
}
use indelible.Common.Int.{ℤ, pos, negsuc}
use indelible.Common.Sql.{update, delete}

pub record RateLimitEntry : Type 0 where
  pub key : Bytes
  pub count : ℕ
  pub reset_at : ℕ

pub record RateLimitResult : Type 0 where
  pub allowed : Bool
  pub limit : ℕ
  pub remaining : ℤ
  pub reset_at : ℕ

pub record RateLimiter : Type 0 where
  pub entries : List RateLimitEntry
  pub max : ℕ
  pub window : ℕ

abbrev pub has_key : Bytes → RateLimitEntry → Bool
has_key key e = bytes_eq e.key key

abbrev pub new_rate_limiter : ℕ → ℕ → RateLimiter
new_rate_limiter max window = record { entries = []; max = max; window = window }

unfoldable pub cleanup : RateLimiter → ℕ → RateLimiter
cleanup rl now = record rl { entries = delete (λ e. ltb e.reset_at now) rl.entries }

-- The first request of a window: a new entry takes the place of one that is past its window.
unfoldable pub start_window : RateLimiter → Bytes → ℕ → RateLimiter
start_window rl key now = record rl {
  entries =
      delete (has_key key) rl.entries
      ++ record { key = key; count = 1; reset_at = now + rl.window } ∷ [];
}

unfoldable pub count_request : RateLimiter → Bytes → RateLimiter
count_request rl key = record rl {
  entries = update (has_key key) (λ e. record e { count = e.count + 1 }) rl.entries;
}

-- `!ok || now.After(entry.resetAt)`.
unfoldable pub is_over : Option RateLimitEntry → ℕ → Bool
is_over none now = true
is_over (some e) now = ltb e.reset_at now

-- What Check answers for the entry that it found in its window; a
-- difference below 0 is set to 0, but not at the start of a window.
unfoldable pub answer : RateLimiter → Option RateLimitEntry → ℕ → RateLimitResult
answer rl none now = record {
  allowed = true;
  limit = rl.max;
  remaining = if rl.max == 0 then negsuc 0 else pos (rl.max - 1);
  reset_at = now + rl.window;
}
answer rl (some e) now = record {
  allowed = leb (e.count + 1) rl.max;
  limit = rl.max;
  remaining = pos (rl.max - (e.count + 1));
  reset_at = e.reset_at;
}

unfoldable pub check : RateLimiter → Bytes → ℕ → RateLimiter × RateLimitResult
unfolding is_over answer start_window count_request
check rl key now =
    let e = find (has_key key) rl.entries in
    if is_over e now
    then (start_window rl key now, answer rl none now)
    else (count_request rl key, answer rl e now)

unfoldable pub allow : RateLimiter → Bytes → ℕ → RateLimiter × Bool
unfolding check
allow rl key now = let (rl', r) = check rl key now in (rl', r.allowed)

-- ===== src/RateLimit/Tests.antt =====
-- A limiter of two requests in ten units of time.
use indelible.Common.{◌≤◌, ◌≡◌, refl, true, List, none, [], ◌∷◌, arith, bytes_eq, text}
use indelible.Common.Sql.{update}
use indelible.RateLimit.{RateLimiter, new_rate_limiter, check, cleanup, is_over}
use indelible.RateLimit.Window.{Event, requests, cleans, passed, passed-le_max}

abbrev limiter : RateLimiter
limiter = new_rate_limiter 2 10

abbrev burst : List Event
burst =
    requests (text "a") 3
    ∷ requests (text "b") 4
    ∷ requests (text "a") 5
    ∷ cleans 6
    ∷ requests (text "a") 7
    ∷ []

passed_two : passed (text "a") limiter (requests (text "a") 0 ∷ burst) ≡ 2
unfolding passed check bytes_eq update cleanup
passed_two = refl

-- A maximum of 0 lets the first request of every window through.
passed_none : passed (text "a") (new_rate_limiter 0 10) (requests (text "a") 0 ∷ burst) ≡ 1
unfolding passed check bytes_eq update cleanup
passed_none = refl

over : is_over none 0 ≡ true
unfolding is_over
over = refl

passed-le_max_example : passed (text "a") limiter (requests (text "a") 0 ∷ burst) ≤ 2
passed-le_max_example =
    passed-le_max (text "a") limiter 0 burst (omega arith) over
      (omega arith, (omega arith, (omega arith, (omega arith, (omega arith, tt)))))

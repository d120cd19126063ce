-- ===== src/Http/RateLimit.antt =====
-- internal/http/rate_limit.go: a fixed-window counter per subject, kept in Redis. Redis is a
-- parameter; each command is given the time at which it runs.
pub mod Window
use Prim.Native.String.{◌++◌}
use echopay.Common.{
  ℕ, zero, suc, ◌+◌, ◌/◌, String, Bool, true, false, Option, none, some, List, [], ◌∷◌, ltb, ◌==◌,
  str_eq, ◌≡◌, if◌then◌else◌,
}

-- A key that holds a number, and when it expires, if ever.
pub record Entry : Type 0 where
  pub count : ℕ
  pub deadline : Option ℕ

-- INCR, whose answer may be an error; EXPIRE, which may fail; TTL, which may find no expiry.
pub record Redis : Type 1 where
  pub State : Type 0
  pub lookup : State → String → Option Entry
  pub incr : ℕ → String → State → Option ℕ × State
  pub expire : ℕ → String → ℕ → State → Bool × State
  pub ttl : ℕ → String → State → Option ℕ

pub record RateLimit : Type 0 where
  pub scope : String
  pub limit : ℕ
  pub window : ℕ

-- A request: its subject, and the times at which its commands run.
pub record Request : Type 0 where
  pub subject : String
  pub incr_at : ℕ
  pub expire_at : ℕ
  pub ttl_at : ℕ

-- `return next(c)`, or a 429 with its headers
pub data Answer : Type 0 where
  next_handler : Answer
  too_many_requests : Option ℕ → ℕ → ℕ → Answer

abbrev pub is_next : Answer → Bool
is_next next_handler = true
is_next (too_many_requests retry limit window) = false

abbrev pub key_of : RateLimit → String → String
key_of r subject = ("rl:" ++ r.scope) ++ (":" ++ subject)

-- seconds, where the key expires
abbrev pub retry_after : Option ℕ → Option ℕ
retry_after none = none
retry_after (some ttl) = if ltb 0 ttl then some (ttl / 1_000_000_000) else none

module _ (redis : Redis) (r : RateLimit) where
  -- the first hit of a window sets the TTL; a failure of EXPIRE is ignored
  abbrev pub started : Request → ℕ → redis.State → redis.State
  started q count s =
      if count == 1 then (redis.expire q.expire_at (key_of r q.subject) r.window s).1 else s

  -- the answer of INCR; an error fails open
  abbrev pub counted : Request → Option ℕ × redis.State → Answer × redis.State
  counted q (none, s) = (next_handler, s)
  counted q (some count, s) =
      let s' = started q count s in
      if ltb r.limit count
      then (
        too_many_requests (retry_after (redis.ttl q.ttl_at (key_of r q.subject) s')) r.limit
            r.window,
        s',
      )
      else (next_handler, s')

  -- `Middleware`; without a subject it fails open
  unfoldable pub middleware : Request → redis.State → Answer × redis.State
  middleware q s =
      if str_eq q.subject ""
      then (next_handler, s)
      else counted q (redis.incr q.incr_at (key_of r q.subject) s)

  -- requests one after the other, and their answers
  unfoldable pub serve : List Request → redis.State → List Answer × redis.State
  serve [] s = ([], s)
  serve (q ∷ qs) s =
      let (answer, s') = middleware q s in
      let (answers, end) = serve qs s' in (answer ∷ answers, end)

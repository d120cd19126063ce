-- ===== src/Http/RateLimit/Window.antt =====
-- Which requests of a window the rate limiter lets through.
use mathlib.Core.List.{map}
use echopay.Common.{
  ℕ, suc, ◌+◌, String, Bool, true, false, not, Option, none, some, List, [], ◌∷◌, ltb, leb, str_eq,
  ◌≡◌, refl, arith, All,
}
use echopay.Http.RateLimit.{Entry, Redis, RateLimit, Request, is_next, key_of, middleware, serve}

-- a key that expires later than t, or never
abbrev pub is_live : ℕ → Option ℕ → Bool
is_live t none = true
is_live t (some deadline) = ltb t deadline

-- no key, or one that has expired
abbrev pub is_fresh : ℕ → Option Entry → Bool
is_fresh t none = true
is_fresh t (some e) = not (is_live t e.deadline)

-- What Redis documents of INCR and EXPIRE, where they do not fail: a key without a value counts from
-- 0 and does not expire, INCR keeps the expiry, and EXPIRE sets it.
pub record IsRedis (redis : Redis) : Type 0 where
  pub incr_fresh :
      (t : ℕ) (key : String) (s s' : redis.State) (n : ℕ)
      → is_fresh t (redis.lookup s key) ≡ true
      → redis.incr t key s ≡ (some n, s')
      → (n ≡ 1) × (redis.lookup s' key ≡ some (record { count = 1; deadline = none }))
  pub incr_live :
      (t : ℕ) (key : String) (s s' : redis.State) (n : ℕ) (e : Entry)
      → redis.lookup s key ≡ some e
      → is_live t e.deadline ≡ true
      → redis.incr t key s ≡ (some n, s')
      → (n ≡ suc e.count)
        × (redis.lookup s' key ≡ some (record { count = suc e.count; deadline = e.deadline }))
  pub expire_sets :
      (t window : ℕ) (key : String) (s s' : redis.State) (e : Entry)
      → redis.lookup s key ≡ some e
      → is_live t e.deadline ≡ true
      → redis.expire t key window s ≡ (true, s')
      → redis.lookup s' key ≡ some (record { count = e.count; deadline = some (t + window) })

-- No command fails.
pub record IsUp (redis : Redis) : Type 0 where
  pub incr_answers :
      (t : ℕ) (key : String) (s : redis.State)
      → (n : ℕ) × (s' : redis.State) × (redis.incr t key s ≡ (some n, s'))
  pub expire_answers :
      (t window : ℕ) (key : String) (s : redis.State)
      → (s' : redis.State) × (redis.expire t key window s ≡ (true, s'))

-- the place of each request in its window, from 1
abbrev pub ranks : ℕ → List Request → List ℕ
ranks n [] = []
ranks n (q ∷ qs) = suc n ∷ ranks (suc n) qs

-- a request of the subject that comes before the deadline
abbrev pub InWindow : String → ℕ → Request → Type 0
InWindow subject deadline q = (q.subject ≡ subject) × (ltb q.incr_at deadline ≡ true)

module _ (redis : Redis) (laws : IsRedis redis) (up : IsUp redis) (r : RateLimit) (subject : String)
    (named : str_eq subject "" ≡ false) where
  -- a later request of a window
  middleware-live :
      (q : Request) (s : redis.State) (n deadline : ℕ)
      → redis.lookup s (key_of r subject)
        ≡ some (record { count = suc n; deadline = some deadline })
      → InWindow subject deadline q
      → (is_next (middleware redis r q s).0 ≡ leb (suc (suc n)) r.limit)
        × (redis.lookup (middleware redis r q s).1 (key_of r subject)
            ≡ some (record { count = suc (suc n); deadline = some deadline }))
  unfolding middleware
  middleware-live q s n deadline held (own, early) =
      let (m, s', run) = up.incr_answers q.incr_at (key_of r subject) s in
      let (one_more, kept) = laws.incr_live q.incr_at _ s s' m _ held early run in
      ground (arith, own, named, run, one_more, kept)

  -- the first request of a window
  middleware-fresh :
      (q : Request) (s : redis.State)
      → is_fresh q.incr_at (redis.lookup s (key_of r subject)) ≡ true
      → q.subject ≡ subject
      → (is_next (middleware redis r q s).0 ≡ leb 1 r.limit)
        × (redis.lookup (middleware redis r q s).1 (key_of r subject)
            ≡ some (record { count = 1; deadline = some (q.expire_at + r.window) }))
  unfolding middleware
  middleware-fresh q s fresh own =
      let (m, s', run) = up.incr_answers q.incr_at (key_of r subject) s in
      let (one, set) = laws.incr_fresh q.incr_at _ s s' m fresh run in
      let (s'', run') = up.expire_answers q.expire_at r.window (key_of r subject) s' in
      let dated = laws.expire_sets q.expire_at r.window _ s' s'' _ set refl run' in
      ground (arith, own, named, run, one, run', dated)

  serve-live :
      (qs : List Request) (s : redis.State) (n deadline : ℕ)
      → redis.lookup s (key_of r subject)
        ≡ some (record { count = suc n; deadline = some deadline })
      → All (InWindow subject deadline) qs
      → map is_next (serve redis r qs s).0 ≡ map (λ rank. leb rank r.limit) (ranks (suc n) qs)
  unfolding serve
  serve-live [] s n deadline held inside = refl
  serve-live (q ∷ qs) s n deadline held (here, later) =
      let (said, kept) = middleware-live q s n deadline held here in
      let rest = serve-live qs _ (suc n) deadline kept later in cc

  -- Where Redis behaves as documented and does not fail, the requests of one subject in a window that
  -- the first of them opens pass exactly up to the limit: those whose place in the window is at most
  -- the limit.
  pub serve-passes :
      (q : Request) (qs : List Request) (s : redis.State)
      → is_fresh q.incr_at (redis.lookup s (key_of r subject)) ≡ true
      → q.subject ≡ subject
      → All (InWindow subject (q.expire_at + r.window)) qs
      → map is_next (serve redis r (q ∷ qs) s).0 ≡ map (λ rank. leb rank r.limit) (ranks 0 (q ∷ qs))
  unfolding serve
  serve-passes q qs s fresh own inside =
      let (said, kept) = middleware-fresh q s fresh own in
      let rest = serve-live qs _ 0 _ kept inside in cc

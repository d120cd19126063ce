-- ===== src/Tests/Throttle.antt =====
-- The rate limiter on a Redis that keeps its keys in a function.
use mathlib.Core.List.{map}
use echopay.Common.{
  ℕ, suc, ◌+◌, String, true, false, Option, none, some, [], ◌∷◌, str_eq, eq_iff, ◌≡◌, refl, sym, ap,
  ◌∙◌, if◌then◌else◌, arith,
}
use echopay.Http.RateLimit.{Entry, Redis, RateLimit, Request, is_next, serve}
use echopay.Http.RateLimit.Window.{is_live, is_fresh, IsRedis, IsUp, serve-passes}

abbrev Keys : Type 0
Keys = String → Option Entry

abbrev set_key : String → Entry → Keys → Keys
set_key key e s k = if str_eq k key then some e else s k

abbrev count_up : ℕ → Option Entry → Entry
count_up t none = record { count = 1; deadline = none }
count_up t (some e) =
    if is_live t e.deadline
    then record { count = suc e.count; deadline = e.deadline }
    else record { count = 1; deadline = none }

abbrev with_deadline : ℕ → String → Option Entry → Keys → Keys
with_deadline t key none s = s
with_deadline t key (some e) s = set_key key (record { count = e.count; deadline = some t }) s

abbrev memory : Redis
memory = record {
  State = Keys;
  lookup = λ s key. s key;
  incr = λ t key s. (some (count_up t (s key)).count, set_key key (count_up t (s key)) s);
  expire = λ t key window s. (true, with_deadline (t + window) key (s key) s);
  ttl = λ t key s. none;
}

found_key : (key : String) (e : Entry) (s : Keys) → set_key key e s key ≡ some e
found_key key e s = ground (arith, eq_iff key key)

fresh_count :
    (t : ℕ) (o : Option Entry)
    → is_fresh t o ≡ true
    → count_up t o ≡ record { count = 1; deadline = none }
fresh_count t none h = refl
fresh_count t (some e) h = ground arith

live_count :
    (t : ℕ) (e : Entry)
    → is_live t e.deadline ≡ true
    → count_up t (some e) ≡ record { count = suc e.count; deadline = e.deadline }
live_count t e h = ground arith

counted_key :
    (t : ℕ) (key : String) (s s' : Keys) (n : ℕ) (e : Entry)
    → count_up t (s key) ≡ e
    → memory.incr t key s ≡ (some n, s')
    → (n ≡ e.count) × (s' key ≡ some e)
counted_key t key s s' n e counted run = (
  cc (ap (λ x. x.0) (sym run) ∙ ap (λ x. some x.count) counted),
  ap (λ x. x.1 key) (sym run) ∙ found_key key _ s ∙ ap some counted,
)

dated_key :
    (t : ℕ) (key : String) (s s' : Keys) (e : Entry)
    → s key ≡ some e
    → with_deadline t key (s key) s ≡ s'
    → s' key ≡ some (record { count = e.count; deadline = some t })
dated_key t key s s' e held run =
    ap (λ x. x key) (sym run) ∙ ap (λ o. with_deadline t key o s key) held ∙ found_key key _ s

memory-IsRedis : IsRedis memory
memory-IsRedis = record {
  incr_fresh =
      λ t key s s' n fresh run. counted_key t key s s' n _ (fresh_count t (s key) fresh) run;
  incr_live = λ t key s s' n e held alive run.
      counted_key t key s s' n _ (ap (count_up t) held ∙ live_count t e alive) run;
  expire_sets = λ t window key s s' e held alive run.
      dated_key (t + window) key s s' e held (ap (λ x. x.1) run);
}

memory-IsUp : IsUp memory
memory-IsUp = record {
  incr_answers = λ t key s. ((count_up t (s key)).count, set_key key (count_up t (s key)) s, refl);
  expire_answers = λ t window key s. (with_deadline (t + window) key (s key) s, refl);
}

abbrev two_per_minute : RateLimit
two_per_minute = record { scope = "public"; limit = 2; window = 60_000_000_000 }

abbrev request_at : ℕ → Request
request_at t = record { subject = "10.0.0.1"; incr_at = t; expire_at = t + 1; ttl_at = t + 2 }

serve-passes_example :
    map is_next
      (serve memory two_per_minute (request_at 5 ∷ request_at 9 ∷ request_at 20 ∷ []) (λ k. none)).0
    ≡ true ∷ true ∷ false ∷ []
serve-passes_example =
    serve-passes memory memory-IsRedis memory-IsUp two_per_minute "10.0.0.1" refl (request_at 5)
      (request_at 9 ∷ request_at 20 ∷ []) (λ k. none) refl refl ((refl, refl), ((refl, refl), tt))

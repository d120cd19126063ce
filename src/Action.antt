-- ===== src/Action.antt =====
-- A service call, as an action on the world that may fail, and the shapes in which the services
-- write Go's `if err != nil`. `query` is one database call, `send` one call of Paystack.
pub mod Ends
pub mod Steps
pub mod Yields
use echopay.Common.{
  ℕ, suc, String, Bool, true, false, Option, none, some, List, [], ◌∷◌, if◌then◌else◌,
}
use echopay.World.{
  Env, World, Exchange, Error, no_rows, failure, wrapped, is_no_rows, Result, ok, err,
}

abbrev pub Action : Type 0 → Type 0
Action A = Env → World → Result A × World

module _ {A : Type 0} where
  unfoldable pub pure : A → Action A
  pure a env w = (ok a, w)

  unfoldable pub raise : Error → Action A
  raise e env w = (err e, w)

  -- One statement of SQL. It sees the world after its turn is counted, the time and a fresh UUID;
  -- where the database fails nothing changes.
  unfoldable pub query : (ℕ → ℕ → World → Result A × World) → Action A
  query body env w =
      let n = w.turn in
      let w' = record w { turn = suc n } in
      elim (env.database_fault n) [
        | some text ↦ (err (failure text), w')
        | none ↦ body (env.time n) (env.random_uuid n) w'
      ]

  -- A read of Paystack that leaves no trace.
  unfoldable pub ask : (Env → ℕ → Result A) → Action A
  ask call env w = (call env w.turn, record w { turn = suc w.turn })

  -- A request to Paystack, logged with its answer.
  unfoldable pub send : (Env → ℕ → Result A) → (Result A → Exchange) → Action A
  send call log env w =
      let reply = call env w.turn in
      (reply, record w { turn = suc w.turn; exchanges = log reply ∷ w.exchanges })

-- `time.Now()`
unfoldable pub now : Action ℕ
now env w = (ok (env.time w.turn), record w { turn = suc w.turn })

-- `id.String()`
unfoldable pub uuid_string : ℕ → Action String
uuid_string id env w = (ok (env.uuid_text id), w)

-- A change of what the process holds in memory.
unfoldable pub modify : (World → World) → Action (Unit {0})
modify f env w = (ok tt, f w)

module _ {A B : Type 0} where
  abbrev pub continue : Result A → (A → Action B) → Action B
  continue (ok a) f env w = f a env w
  continue (err e) f env w = (err e, w)

  infixl 5 ◌>>=◌
  unfoldable pub ◌>>=◌ : Action A → (A → Action B) → Action B
  ◌>>=◌ m f env w = let (r, w') = m env w in continue r f env w'

infixl 5 ◌>>◌
abbrev pub ◌>>◌ : {A B : Type 0} → Action A → Action B → Action B
m >> k = m >>= λ _. k

module _ {A : Type 0} where
  abbrev pub recover : Result A → (Error → Action A) → Action A
  recover (ok a) f env w = (ok a, w)
  recover (err e) f env w = f e env w

  -- `if err != nil { return f(err) }`
  unfoldable pub handle : Action A → (Error → Action A) → Action A
  handle m f env w = let (r, w') = m env w in recover r f env w'

  -- `_, _ = m()`, and an error that is only logged
  unfoldable pub ignore : Action A → Action (Unit {0})
  ignore m env w = (ok tt, (m env w).1)

  -- `return fmt.Errorf("s: %w", err)`
  unfoldable pub within : String → Action A → Action A
  within s m = handle m λ e. raise (wrapped s e)

  -- `if errors.Is(err, pgx.ErrNoRows) { return sentinel }; return fmt.Errorf("s: %w", err)`
  unfoldable pub rows_or : Error → String → Action A → Action A
  rows_or sentinel s m = handle m λ e. raise (if is_no_rows e then sentinel else wrapped s e)

module _ {A B : Type 0} where
  abbrev pub proceed : Result A → (Error → Action B) → (A → Action B) → Action B
  proceed (ok a) f k env w = k a env w
  proceed (err e) f k env w = f e env w

  -- `a, err := m(); if err != nil { return f(err) }; return k(a)`
  unfoldable pub attempt : Action A → (Error → Action B) → (A → Action B) → Action B
  attempt m f k env w = let (r, w') = m env w in proceed r f k env w'

-- `if !c { return e }`
unfoldable pub require : Bool → Error → Action (Unit {0})
require true e = pure tt
require false e = raise e

-- `if c { m }`
unfoldable pub when : Bool → Action (Unit {0}) → Action (Unit {0})
when true m = m
when false m = pure tt

module _ {A : Type 0} where
  -- `if p != nil { f(*p) }`
  unfoldable pub on_some : Option A → (A → Action (Unit {0})) → Action (Unit {0})
  on_some none f = pure tt
  on_some (some a) f = f a

  -- `for _, x := range xs { f(x) }`, where what a round fails with is only logged
  unfoldable pub each : List A → (A → Action (Unit {0})) → Action (Unit {0})
  each [] f = pure tt
  each (x ∷ xs) f = ignore (f x) >> each xs f

  -- `if p != nil { return *p }; rest`
  unfoldable pub or_else : Option A → Action A → Action A
  or_else none rest = rest
  or_else (some a) rest = pure a

-- ===== src/Action/Steps.antt =====
-- Reasoning about actions: `Steps R m` says that whatever the environment answers, and whether `m`
-- returns or fails, `R` relates the world before to the world after. One rule for each way to build
-- an action, so that `search steps_rules` walks a `do` block.
use echopay.Common.{
  ℕ, suc, String, ◌≡◌, refl, Bool, true, false, Option, none, some, List, [], ◌∷◌, if◌then◌else◌,
}
use echopay.World.{Env, World, Exchange, Error, failure, wrapped, Result, ok, err}
use echopay.Action.{
  Action, pure, raise, query, ask, send, now, uuid_string, ◌>>=◌, handle, ignore, within, rows_or,
  require, when, on_some, each, or_else, continue, recover, attempt, proceed,
}

-- What the rules need of a relation. `ticks` is the step that every action may take: a turn is
-- counted.
pub record Frame (R : World → World → Type 0) : Type 0 where
  pub stays : (w : World) → R w w
  pub goes_on : (a b c : World) → R a b → R b c → R a c
  pub ticks : (w : World) (n : ℕ) → R w (record w { turn = n })

-- A request to Paystack is logged.
pub record Sends (R : World → World → Type 0) : Type 0 where
  pub logs :
      (w : World) (n : ℕ) (x : Exchange) → R w (record w { turn = n; exchanges = x ∷ w.exchanges })

pub record Steps {A : Type 0} (R : World → World → Type 0) (m : Action A) : Type 0 where
  pub at : (env : Env) (w : World) → R w (m env w).1

pub query_cases :
    {A : Type 0} (R : World → World → Type 0) (body : World → Result A × World) (w w' : World)
    (fault : Option String)
    → R w w'
    → R w (body w').1
    → R w
        (elim fault as (λ _. Result A × World) [
          | some text ↦ (err (failure text), w')
          | none ↦ body w'
        ]).1
query_cases R body w w' none h k = k
query_cases R body w w' (some text) h k = h

-- the two outcomes of a statement that tests a constraint
pub if_cases :
    {A : Type 0} (R : World → World → Type 0) (w : World) (b : Bool) (x y : Result A × World)
    → (b ≡ true → R w x.1)
    → R w y.1
    → R w (if b then x else y).1
if_cases R w true x y h k = h refl
if_cases R w false x y h k = k

module _ {R : World → World → Type 0} {A : Type 0} where
  pub Steps-pure : Frame R → (a : A) → Steps R (pure a)
  unfolding pure
  Steps-pure f a = record { at = λ env w. f.stays w }

  pub Steps-raise : Frame R → (e : Error) → Steps R (raise {A = A} e)
  unfolding raise
  Steps-raise f e = record { at = λ env w. f.stays w }

  pub Steps-ask : Frame R → (call : Env → ℕ → Result A) → Steps R (ask call)
  unfolding ask
  Steps-ask f call = record { at = λ env w. f.ticks w (suc w.turn) }

  pub Steps-send :
      Sends R → (call : Env → ℕ → Result A) (log : Result A → Exchange) → Steps R (send call log)
  unfolding send
  Steps-send f call log = record { at = λ env w. f.logs w (suc w.turn) (log (call env w.turn)) }

  -- a query whose statement steps by `R` steps by `R`, also where the database fails
  pub Steps-query :
      Frame R
      → (body : ℕ → ℕ → World → Result A × World) → ((t u : ℕ) (w : World) → R w (body t u w).1)
      → Steps R (query body)
  unfolding query
  Steps-query f body h = record {
    at = λ env w.
        let w' = record w { turn = suc w.turn } in
        query_cases R (body (env.time w.turn) (env.random_uuid w.turn)) w w'
          (env.database_fault w.turn) (f.ticks w (suc w.turn))
          (f.goes_on w w' _ (f.ticks w (suc w.turn))
            (h (env.time w.turn) (env.random_uuid w.turn) w'));
  }

  pub Steps-if : (b : Bool) (m n : Action A) → Steps R m → Steps R n → Steps R (if b then m else n)
  Steps-if true m n hm hn = hm
  Steps-if false m n hm hn = hn

module _ {R : World → World → Type 0} where
  pub Steps-now : Frame R → Steps R now
  unfolding now
  Steps-now f = record { at = λ env w. f.ticks w (suc w.turn) }

  pub Steps-uuid_string : Frame R → (id : ℕ) → Steps R (uuid_string id)
  unfolding uuid_string
  Steps-uuid_string f id = record { at = λ env w. f.stays w }

module _ {R : World → World → Type 0} {A B : Type 0} where
  pub Steps-bind :
      Frame R
      → (m : Action A) (f : A → Action B) → Steps R m
      → ((a : A) → Steps R (f a))
      → Steps R (m >>= f)
  unfolding ◌>>=◌
  Steps-bind frame m f hm hf = record {
    at = λ env w.
        frame.goes_on w (m env w).1 ((m >>= f) env w).1 (hm.at env w)
          (rest env (m env w).1 (m env w).0);
  }
    where
      rest : (env : Env) (w' : World) (r : Result A) → R w' (continue r f env w').1
      rest env w' (ok a) = (hf a).at env w'
      rest env w' (err e) = frame.stays w'

module _ {R : World → World → Type 0} {A : Type 0} where
  pub Steps-handle :
      Frame R
      → (m : Action A) (f : Error → Action A) → Steps R m
      → ((e : Error) → Steps R (f e))
      → Steps R (handle m f)
  unfolding handle
  Steps-handle frame m f hm hf = record {
    at = λ env w.
        frame.goes_on w (m env w).1 (handle m f env w).1 (hm.at env w)
          (rest env (m env w).1 (m env w).0);
  }
    where
      rest : (env : Env) (w' : World) (r : Result A) → R w' (recover r f env w').1
      rest env w' (ok a) = frame.stays w'
      rest env w' (err e) = (hf e).at env w'

  pub Steps-attempt :
      Frame R
      → {B : Type 0} (m : Action B) (f : Error → Action A) (k : B → Action A) → Steps R m
      → ((e : Error) → Steps R (f e))
      → ((b : B) → Steps R (k b))
      → Steps R (attempt m f k)
  unfolding attempt
  Steps-attempt frame {B} m f k hm hf hk = record {
    at = λ env w.
        frame.goes_on w (m env w).1 (attempt m f k env w).1 (hm.at env w)
          (rest env (m env w).1 (m env w).0);
  }
    where
      rest : (env : Env) (w' : World) (r : Result B) → R w' (proceed r f k env w').1
      rest env w' (ok b) = (hk b).at env w'
      rest env w' (err e) = (hf e).at env w'

  pub Steps-ignore : (m : Action A) → Steps R m → Steps R (ignore m)
  unfolding ignore
  Steps-ignore m h = record { at = h.at }

  pub Steps-within : Frame R → (s : String) (m : Action A) → Steps R m → Steps R (within s m)
  unfolding within
  Steps-within f s m h = Steps-handle f m _ h (λ e. Steps-raise f (wrapped s e))

  pub Steps-rows_or :
      Frame R → (e : Error) (s : String) (m : Action A) → Steps R m → Steps R (rows_or e s m)
  unfolding rows_or
  Steps-rows_or f e s m h = Steps-handle f m _ h (λ x. Steps-raise f _)

  pub Steps-on_some :
      Frame R
      → (o : Option A) (f : A → Action (Unit {0})) → ((a : A) → Steps R (f a))
      → Steps R (on_some o f)
  unfolding on_some
  Steps-on_some frame none f h = Steps-pure frame tt
  Steps-on_some frame (some a) f h = h a

  pub Steps-or_else :
      Frame R → (o : Option A) (rest : Action A) → Steps R rest → Steps R (or_else o rest)
  unfolding or_else
  Steps-or_else frame none rest h = h
  Steps-or_else frame (some a) rest h = Steps-pure frame a

-- the context of an error is added without touching the world
pub within-world :
    {A : Type 0} (s : String) (m : Action A) (env : Env) (w : World)
    → (within s m env w).1 ≡ (m env w).1
unfolding within handle raise
within-world {A} s m env w = go (m env w).0
  where
    go :
        (r : Result A)
        → (recover r (λ e env w. (err (wrapped s e), w)) env (m env w).1).1 ≡ (m env w).1
    go (ok a) = refl
    go (err e) = refl

module _ {R : World → World → Type 0} {A : Type 0} where
  pub Steps-each :
      Frame R
      → (xs : List A) (f : A → Action (Unit {0})) → ((a : A) → Steps R (f a))
      → Steps R (each xs f)
  unfolding each
  Steps-each frame [] f h = Steps-pure frame tt
  Steps-each frame (x ∷ xs) f h =
      Steps-bind frame (ignore (f x)) _ (Steps-ignore (f x) (h x)) (λ _. Steps-each frame xs f h)

module _ {R : World → World → Type 0} where
  pub Steps-require : Frame R → (c : Bool) (e : Error) → Steps R (require c e)
  unfolding require
  Steps-require frame true e = Steps-pure frame tt
  Steps-require frame false e = Steps-raise frame e

  pub Steps-when : Frame R → (c : Bool) (m : Action (Unit {0})) → Steps R m → Steps R (when c m)
  unfolding when
  Steps-when frame true m h = h
  Steps-when frame false m h = Steps-pure frame tt

pub ruleset steps_rules = (
  Steps-pure, Steps-raise, Steps-ask, Steps-send, Steps-if, Steps-now, Steps-uuid_string,
  Steps-bind, Steps-handle, Steps-ignore, Steps-within, Steps-rows_or, Steps-on_some, Steps-or_else,
  Steps-each, Steps-require, Steps-when, Steps-attempt,
)

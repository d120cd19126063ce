-- ===== src/Action/Yields.antt =====
-- What an action returns: `Yields m Q` says that a value that comes back satisfies `Q` in the world
-- that is left. `YieldsFrom P m Q` and `StepsFrom P R m` are `Yields m Q` and `Steps R m` for worlds
-- in which `P` holds.
use echopay.Common.{ℕ, suc, String, ◌≡◌, refl, subst, Bool, true, false, Option, none, some}
use echopay.World.{Env, World, Error, failure, wrapped, Result, ok, err}
use echopay.Action.{
  Action, pure, raise, query, ◌>>=◌, handle, within, rows_or, continue, recover, when,
}
use echopay.Action.Steps.{Frame, Steps, Steps-pure, Steps-raise, query_cases}

pub record Yields {A : Type 0} (m : Action A) (Q : A → World → Type 0) : Type 0 where
  pub at : (env : Env) (w : World) (a : A) → (m env w).0 ≡ ok a → Q a (m env w).1

pub record YieldsFrom {A : Type 0} (P : World → Type 0) (m : Action A) (Q : A → World → Type 0)
    : Type 0 where
  pub at : (env : Env) (w : World) (a : A) → P w → (m env w).0 ≡ ok a → Q a (m env w).1

pub record StepsFrom {A : Type 0} (P : World → Type 0) (R : World → World → Type 0) (m : Action A)
    : Type 0 where
  pub at : (env : Env) (w : World) → P w → R w (m env w).1

query_yields :
    {A : Type 0} (Q : A → World → Type 0) (body : World → Result A × World) (w' : World)
    (fault : Option String) (a : A)
    → ((b : A) → (body w').0 ≡ ok b → Q b (body w').1)
    → (elim fault as (λ _. Result A × World) [
      | some text ↦ (err (failure text), w')
      | none ↦ body w'
    ]).0
      ≡ ok a
    → Q a
        (elim fault as (λ _. Result A × World) [
          | some text ↦ (err (failure text), w')
          | none ↦ body w'
        ]).1
query_yields Q body w' none a h e = h a e
query_yields Q body w' (some text) a h e = cc

module _ {A B : Type 0} where
  pub Yields-bind :
      {Q : B → World → Type 0} (m : Action A) (f : A → Action B)
      → ((a : A) → Yields (f a) Q)
      → Yields (m >>= f) Q
  unfolding ◌>>=◌
  Yields-bind {Q} m f h = record { at = λ env w b e. go env (m env w).1 (m env w).0 b e }
    where
      go :
          (env : Env) (w' : World) (r : Result A) (b : B)
          → (continue r f env w').0 ≡ ok b
          → Q b (continue r f env w').1
      go env w' (ok a) b e = (h a).at env w' b e
      go env w' (err x) b e = cc

module _ {A : Type 0} {Q : A → World → Type 0} where
  pub Yields-raise : (e : Error) → Yields (raise e) Q
  unfolding raise
  Yields-raise e = record { at = λ env w a h. cc }

  pub Yields-handle :
      (m : Action A) (f : Error → Action A)
      → Yields m Q
      → ((e : Error) → Yields (f e) Q)
      → Yields (handle m f) Q
  unfolding handle
  Yields-handle m f hm hf = record {
    at = λ env w a e. go env w (m env w).1 (m env w).0 a (hm.at env w) e;
  }
    where
      go :
          (env : Env) (w w' : World) (r : Result A) (a : A)
          → ((b : A) → r ≡ ok b → Q b w')
          → (recover r f env w').0 ≡ ok a
          → Q a (recover r f env w').1
      go env w w' (ok x) a known e = known a e
      go env w w' (err x) a known e = (hf x).at env w' a e

  pub Yields-within : (s : String) (m : Action A) → Yields m Q → Yields (within s m) Q
  unfolding within
  Yields-within s m h = Yields-handle m _ h (λ e. Yields-raise (wrapped s e))

  pub Yields-query :
      (body : ℕ → ℕ → World → Result A × World)
      → ((t u : ℕ) (w : World) (a : A) → (body t u w).0 ≡ ok a → Q a (body t u w).1)
      → Yields (query body) Q
  unfolding query
  Yields-query body h = record {
    at = λ env w a e.
        query_yields Q (body (env.time w.turn) (env.random_uuid w.turn))
          (record w { turn = suc w.turn }) (env.database_fault w.turn) a
          (h (env.time w.turn) (env.random_uuid w.turn) (record w { turn = suc w.turn })) e;
  }

module _ {A : Type 0} {Q : A → World → Type 0} where
  pub Yields-rows_or :
      (e : Error) (s : String) (m : Action A) → Yields m Q → Yields (rows_or e s m) Q
  unfolding rows_or
  Yields-rows_or e s m h = Yields-handle m _ h (λ x. Yields-raise _)

-- what a block that ends with `pure a` returns
pub Yields-pure : {A : Type 0} (a : A) → Yields (pure a) (λ b _. b ≡ a)
unfolding pure
Yields-pure a = record { at = λ env w b e. cc }

pub ruleset yields_rules = (Yields-bind, Yields-raise, Yields-handle, Yields-within, Yields-rows_or)

module _ {A B : Type 0} {R : World → World → Type 0} where
  -- the rest of a block may use what its first action yields
  pub Steps-bind_yields :
      Frame R
      → (Q : A → World → Type 0) (m : Action A) (f : A → Action B) → Steps R m
      → Yields m Q
      → ((a : A) → StepsFrom (Q a) R (f a))
      → Steps R (m >>= f)
  unfolding ◌>>=◌
  Steps-bind_yields frame Q m f hm hq hf = record {
    at = λ env w.
        frame.goes_on w (m env w).1 ((m >>= f) env w).1 (hm.at env w)
          (go env (m env w).1 (m env w).0 (hq.at env w));
  }
    where
      go :
          (env : Env) (w' : World) (r : Result A)
          → ((a : A) → r ≡ ok a → Q a w')
          → R w' (continue r f env w').1
      go env w' (ok a) known = (hf a).at env w' (known a refl)
      go env w' (err e) known = frame.stays w'

  -- `P` still holds when the first action is through
  pub StepsFrom-bind :
      Frame R
      → (P : World → Type 0) → ((w w' : World) → R w w' → P w → P w')
      → (m : Action A) (f : A → Action B) → StepsFrom P R m
      → ((a : A) → StepsFrom P R (f a))
      → StepsFrom P R (m >>= f)
  unfolding ◌>>=◌
  StepsFrom-bind frame P stable m f hm hf = record {
    at = λ env w p.
        frame.goes_on w (m env w).1 ((m >>= f) env w).1 (hm.at env w p)
          (go env (m env w).1 (m env w).0 (stable w (m env w).1 (hm.at env w p) p));
  }
    where
      go : (env : Env) (w' : World) (r : Result A) → P w' → R w' (continue r f env w').1
      go env w' (ok a) p = (hf a).at env w' p
      go env w' (err e) p = frame.stays w'

module _ {A : Type 0} {R : World → World → Type 0} where
  pub StepsFrom-Steps : {P : World → Type 0} (m : Action A) → Steps R m → StepsFrom P R m
  StepsFrom-Steps m h = record { at = λ env w p. h.at env w }

  pub StepsFrom-handle :
      Frame R
      → (P : World → Type 0) (m : Action A) (f : Error → Action A) → StepsFrom P R m
      → ((e : Error) → Steps R (f e))
      → StepsFrom P R (handle m f)
  unfolding handle
  StepsFrom-handle frame P m f hm hf = record {
    at = λ env w p.
        frame.goes_on w (m env w).1 (handle m f env w).1 (hm.at env w p)
          (go env (m env w).1 (m env w).0);
  }
    where
      go : (env : Env) (w' : World) (r : Result A) → R w' (recover r f env w').1
      go env w' (ok a) = frame.stays w'
      go env w' (err e) = (hf e).at env w'

  pub StepsFrom-within :
      Frame R
      → {P : World → Type 0} (s : String) (m : Action A) → StepsFrom P R m
      → StepsFrom P R (within s m)
  unfolding within
  StepsFrom-within frame {P} s m h =
      StepsFrom-handle frame P m _ h (λ e. Steps-raise frame (wrapped s e))

  pub StepsFrom-query :
      Frame R
      → (P : World → Type 0) → ((w : World) (n : ℕ) → P w → P (record w { turn = n }))
      → (body : ℕ → ℕ → World → Result A × World)
      → ((t u : ℕ) (w : World) → P w → R w (body t u w).1)
      → StepsFrom P R (query body)
  unfolding query
  StepsFrom-query f P counted body h = record {
    at = λ env w p.
        let w' = record w { turn = suc w.turn } in
        query_cases R (body (env.time w.turn) (env.random_uuid w.turn)) w w'
          (env.database_fault w.turn) (f.ticks w (suc w.turn))
          (f.goes_on w w' _ (f.ticks w (suc w.turn))
            (h (env.time w.turn) (env.random_uuid w.turn) w' (counted w (suc w.turn) p)));
  }

module _ {R : World → World → Type 0} where
  pub StepsFrom-when :
      Frame R
      → {P : World → Type 0} (b : Bool) (m : Action (Unit {0})) → StepsFrom P R m
      → StepsFrom P R (when b m)
  unfolding when
  StepsFrom-when frame true m h = h
  StepsFrom-when frame false m h = StepsFrom-Steps _ (Steps-pure frame tt)

module _ {A B : Type 0} {Q : B → World → Type 0} where
  -- the rest of a block may use what its first action yields
  pub Yields-bind_yields :
      (S : A → World → Type 0) (m : Action A) (f : A → Action B)
      → Yields m S
      → ((a : A) → YieldsFrom (S a) (f a) Q)
      → Yields (m >>= f) Q
  unfolding ◌>>=◌
  Yields-bind_yields S m f hm hf = record {
    at = λ env w b e. go env (m env w).1 (m env w).0 b (hm.at env w) e;
  }
    where
      go :
          (env : Env) (w' : World) (r : Result A) (b : B)
          → ((a : A) → r ≡ ok a → S a w')
          → (continue r f env w').0 ≡ ok b
          → Q b (continue r f env w').1
      go env w' (ok a) b known e = (hf a).at env w' b (known a refl) e
      go env w' (err x) b known e = cc

  pub YieldsFrom-bind_yields :
      {P : World → Type 0} (S : A → World → Type 0) (m : Action A) (f : A → Action B)
      → YieldsFrom P m S
      → ((a : A) → YieldsFrom (S a) (f a) Q)
      → YieldsFrom P (m >>= f) Q
  unfolding ◌>>=◌
  YieldsFrom-bind_yields S m f hm hf = record {
    at = λ env w b p e. go env (m env w).1 (m env w).0 b (λ a. hm.at env w a p) e;
  }
    where
      go :
          (env : Env) (w' : World) (r : Result A) (b : B)
          → ((a : A) → r ≡ ok a → S a w')
          → (continue r f env w').0 ≡ ok b
          → Q b (continue r f env w').1
      go env w' (ok a) b known e = (hf a).at env w' b (known a refl) e
      go env w' (err x) b known e = cc

  -- `P` still holds when the first action is through
  pub YieldsFrom-bind :
      {R : World → World → Type 0} (P : World → Type 0)
      → ((w w' : World) → R w w' → P w → P w')
      → (m : Action A) (f : A → Action B) → Steps R m
      → ((a : A) → YieldsFrom P (f a) Q)
      → YieldsFrom P (m >>= f) Q
  YieldsFrom-bind P stable m f hm hf =
      YieldsFrom-bind_yields (λ _. P) m f
        (record { at = λ env w a p e. stable w (m env w).1 (hm.at env w) p }) hf

module _ {A : Type 0} {P : World → Type 0} {Q : A → World → Type 0} where
  pub YieldsFrom-pure : (a : A) → ((w : World) → P w → Q a w) → YieldsFrom P (pure a) Q
  unfolding pure
  YieldsFrom-pure a h = record { at = λ env w b p e. subst (λ x. Q x w) (same b e) (h w p) }
    where
      same : (b : A) → Result.ok a ≡ ok b → a ≡ b
      same b e = cc

  pub YieldsFrom-Yields : (m : Action A) → Yields m Q → YieldsFrom P m Q
  YieldsFrom-Yields m h = record { at = λ env w a p e. h.at env w a e }

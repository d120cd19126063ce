-- ===== src/Action/Ends.antt =====
-- What a call that returned a value must have gone through: each step of the block has returned one,
-- and the next began where it ended.
use echopay.Common.{
  Option, none, some, List, find?, ℕ, suc, String, ◌≡◌, refl, sym, ap, ◌∙◌, ◌∷◌, subst,
  Option-cases, inl, inr, arith, Bool, true, false,
}
use echopay.Store.Query.{found, select_one}
use echopay.World.{Exchange, Env, World, Error, Result, ok, err, wrapped}
use echopay.Action.{
  Action, ask, pure, raise, query, send, uuid_string, now, ◌>>=◌, ◌>>◌, handle, within, rows_or,
  require, continue, attempt, proceed, recover,
}
use echopay.Action.Yields.{Yields, Yields-raise}

pub found-ends : {A : Type 0} (o : Option A) (a : A) → found o ≡ ok a → o ≡ some a
found-ends none a h = cc
found-ends (some x) a h = cc

module _ {A B : Type 0} where
  pub bind-ends :
      (m : Action A) (f : A → Action B) (env : Env) (w w' : World) (b : B)
      → (m >>= f) env w ≡ (ok b, w')
      → (a : A) × (v : World) × (m env w ≡ (ok a, v)) × (f a env v ≡ (ok b, w'))
  unfolding ◌>>=◌
  bind-ends m f env w w' b done = go (m env w) refl done
    where
      go :
          (out : Result A × World)
          → m env w ≡ out
          → continue out.0 f env out.1 ≡ (ok b, w')
          → (a : A) × (v : World) × (m env w ≡ (ok a, v)) × (f a env v ≡ (ok b, w'))
      go (ok a, v) same done = (a, v, same, done)
      go (err e, v) same done = ground (arith, ap (λ x. x.0) done)

  -- with the value and the world of the first step as variables
  pub bind_then :
      {P : Type 0} (m : Action A) (f : A → Action B) (env : Env) (w w' : World) (b : B)
      → (m >>= f) env w ≡ (ok b, w')
      → ((a : A) (v : World) → m env w ≡ (ok a, v) → f a env v ≡ (ok b, w') → P)
      → P
  bind_then m f env w w' b done next =
      let (a, v, first, rest) = bind-ends m f env w w' b done in next a v first rest

module _ {A : Type 0} where
  pub send-ends :
      (call : Env → ℕ → Result A) (log : Result A → Exchange) (env : Env) (w w' : World) (a : A)
      → send call log env w ≡ (ok a, w')
      → (call env w.turn ≡ ok a)
        × (w' ≡ record w { turn = suc w.turn; exchanges = log (ok a) ∷ w.exchanges })
  unfolding send
  send-ends call log env w w' a done =
      let answer = ap (λ x. x.0) done in
      (
        answer,
        subst (λ r. w' ≡ record w { turn = suc w.turn; exchanges = log r ∷ w.exchanges }) answer
            (sym (ap (λ x. x.1) done)),
      )

  pub uuid_string-ends :
      (id : ℕ) (f : String → Action A) (env : Env) (w : World) (out : Result A × World)
      → (uuid_string id >>= f) env w ≡ out
      → f (env.uuid_text id) env w ≡ out
  unfolding uuid_string ◌>>=◌
  uuid_string-ends id f env w out done = done

  pub handle-ends :
      (m : Action A) (f : Error → Action A) (env : Env) (w w' : World) (a : A)
      → ((e : Error) → Yields (f e) (λ _ _. ⊥))
      → handle m f env w ≡ (ok a, w')
      → m env w ≡ (ok a, w')
  unfolding handle
  handle-ends m f env w w' a never done = go (m env w) refl done
    where
      go :
          (out : Result A × World)
          → m env w ≡ out
          → recover out.0 f env out.1 ≡ (ok a, w')
          → m env w ≡ (ok a, w')
      go (ok x, v) same done = same ∙ done
      go (err e, v) same done = absurd ((never e).at env v a (ap (λ x. x.0) done))

  pub within-ends :
      (s : String) (m : Action A) (env : Env) (w w' : World) (a : A)
      → within s m env w ≡ (ok a, w')
      → m env w ≡ (ok a, w')
  unfolding within
  within-ends s m env w w' a done =
      handle-ends m _ env w w' a (λ e. Yields-raise (wrapped s e)) done

  pub rows_or-ends :
      (e : Error) (s : String) (m : Action A) (env : Env) (w w' : World) (a : A)
      → rows_or e s m env w ≡ (ok a, w')
      → m env w ≡ (ok a, w')
  unfolding rows_or
  rows_or-ends e s m env w w' a done = handle-ends m _ env w w' a (λ x. Yields-raise _) done

  pub query-ends :
      (body : ℕ → ℕ → World → Result A × World) (env : Env) (w w' : World) (a : A)
      → query body env w ≡ (ok a, w')
      → body (env.time w.turn) (env.random_uuid w.turn) (record w { turn = suc w.turn })
        ≡ (ok a, w')
  unfolding query
  query-ends body env w w' a done = elim (Option-cases (env.database_fault w.turn)) [
    | inl quiet ↦ ground arith
    | inr (text, fault) ↦ ground arith
  ]

pub require-ends :
    (c : Bool) (e : Error) (env : Env) (w w' : World)
    → require c e env w ≡ (ok tt, w')
    → (c ≡ true) × (w ≡ w')
unfolding require pure raise
require-ends true e env w w' done = (refl, ap (λ x. x.1) done)
require-ends false e env w w' done = ground (arith, ap (λ x. x.0) done)

module _ {A : Type 0} where
  -- the clock is read
  pub now_then :
      (f : ℕ → Action A) (env : Env) (w : World) (out : Result A × World)
      → (now >>= f) env w ≡ out
      → f (env.time w.turn) env (record w { turn = suc w.turn }) ≡ out
  unfolding now ◌>>=◌
  now_then f env w out done = done

  -- a test is passed
  pub require_then :
      (c : Bool) (e : Error) (m : Action A) (env : Env) (w w' : World) (a : A)
      → (require c e >> m) env w ≡ (ok a, w')
      → (c ≡ true) × (m env w ≡ (ok a, w'))
  unfolding require pure raise ◌>>=◌
  require_then true e m env w w' a done = (refl, done)
  require_then false e m env w w' a done = ground (arith, ap (λ x. x.0) done)

  -- a statement of SQL, whose error is wrapped
  pub within_query_then :
      {B P : Type 0} (s : String) (body : ℕ → ℕ → World → Result B × World) (f : B → Action A)
      (env : Env) (w w' : World) (a : A)
      → (within s (query body) >>= f) env w ≡ (ok a, w')
      → ((b : B) (v : World)
          → body (env.time w.turn) (env.random_uuid w.turn) (record w { turn = suc w.turn })
            ≡ (ok b, v)
          → f b env v ≡ (ok a, w')
          → P)
      → P
  within_query_then s body f env w w' a done next =
      bind_then _ _ env w w' a done λ b v first rest.
        next b v (query-ends body env w v b (within-ends s _ env w v b first)) rest

  pub pure-ends :
      (a b : A) (env : Env) (w w' : World) → pure a env w ≡ (ok b, w') → (a ≡ b) × (w ≡ w')
  unfolding pure
  pure-ends a b env w w' done = (cc (ap (λ x. x.0) done), ap (λ x. x.1) done)

module _ {A B P : Type 0} where
  -- a call that was answered: it has returned a value, or its error was handled
  pub attempt_then :
      (m : Action A) (f : Error → Action B) (k : A → Action B) (env : Env) (w : World) (b : B)
      → (attempt m f k env w).0 ≡ ok b
      → ((e : Error) (v : World) → (f e env v).0 ≡ ok b → P)
      → ((a : A) (v : World) → m env w ≡ (ok a, v) → (k a env v).0 ≡ ok b → P)
      → P
  unfolding attempt
  attempt_then m f k env w b done failed went = go (m env w) refl done
    where
      go : (out : Result A × World) → m env w ≡ out → (proceed out.0 f k env out.1).0 ≡ ok b → P
      go (ok a, v) same done = went a v same done
      go (err e, v) same done = failed e v done

  -- the same, with the world that is left
  pub attempt_ends :
      (m : Action A) (f : Error → Action B) (k : A → Action B) (env : Env) (w w' : World) (b : B)
      → attempt m f k env w ≡ (ok b, w')
      → ((e : Error) (v : World) → f e env v ≡ (ok b, w') → P)
      → ((a : A) (v : World) → m env w ≡ (ok a, v) → k a env v ≡ (ok b, w') → P)
      → P
  unfolding attempt
  attempt_ends m f k env w w' b done failed went = go (m env w) refl done
    where
      go : (out : Result A × World) → m env w ≡ out → proceed out.0 f k env out.1 ≡ (ok b, w') → P
      go (ok a, v) same done = went a v same done
      go (err e, v) same done = failed e v done

-- a lookup that has found its row
pub select_one-ends :
    {A : Type 0} (table : World → List A) (test : A → Bool) (env : Env) (w w' : World) (a : A)
    → select_one table test env w ≡ (ok a, w')
    → (find? test (table (record w { turn = suc w.turn })) ≡ some a)
      × (w' ≡ record w { turn = suc w.turn })
unfolding select_one
select_one-ends table test env w w' a done =
    let read = query-ends _ env w w' a done in
    (
      found-ends (find? test (table (record w { turn = suc w.turn }))) a (ap (λ x. x.0) read),
      sym (ap (λ x. x.1) read),
    )

-- what `ask` was answered
pub ask-ends :
    {A : Type 0} (call : Env → ℕ → Result A) (env : Env) (w w' : World) (a : A)
    → ask call env w ≡ (ok a, w')
    → (call env w.turn ≡ ok a) × (record w { turn = suc w.turn } ≡ w')
unfolding ask
ask-ends call env w w' a done =
    (ap (λ (x : Result _ × World). x.0) done, ap (λ (x : Result _ × World). x.1) done)

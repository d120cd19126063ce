-- ===== src/Http/Answers.antt =====
-- What a handler that gave a value has gone through.
use echopay.Common.{ℕ, String, Option, none, some, refl, ◌≡◌, ap, ◌==◌, arith, inl, inr, Bool-cases}
use echopay.World.{Env, World, Result, ok}
use echopay.Action.{Action, pure}
use echopay.Http.{Outcome, passed, refuse, give, Context, for_user, with_id}

pub refuse-ends :
    {A : Type 0} (status : ℕ) (message : String) (env : Env) (w w' : World) (a : A)
    → refuse status message env w ≡ (ok (passed a), w')
    → ⊥
unfolding refuse pure
refuse-ends status message env w w' a done = absurd (ground arith)

pub give-ends :
    {A : Type 0} (a b : A) (env : Env) (w w' : World) → give a env w ≡ (ok (passed b), w') → w ≡ w'
unfolding give pure
give-ends a b env w w' done = ap (λ (x : Result (Outcome _) × World). x.1) done

pub for_user-ends :
    {A : Type 0} (c : Context) (m : Action (Outcome A)) (env : Env) (w w' : World) (a : A)
    → for_user c m env w ≡ (ok (passed a), w')
    → m env w ≡ (ok (passed a), w')
unfolding for_user
for_user-ends c m env w w' a done = elim (Bool-cases (c.user_id == 0)) [
  | inl nobody ↦ absurd (refuse-ends 401 "no user" env w w' a (rw (nobody, for_user) at done))
  | inr somebody ↦ rw (somebody, for_user) at done
]

-- an id that was read
pub with_id-ends :
    {A : Type 0} (message : String) (o : Option ℕ) (page : ℕ → Action (Outcome A)) (env : Env)
    (w w' : World) (a : A)
    → with_id message o page env w ≡ (ok (passed a), w')
    → (id : ℕ) × (o ≡ some id) × (page id env w ≡ (ok (passed a), w'))
with_id-ends message none page env w w' a done = absurd (refuse-ends 400 message env w w' a done)
with_id-ends message (some id) page env w w' a done = (id, refl, done)

pub give-value :
    {A : Type 0} (a b : A) (env : Env) (w w' : World) → give a env w ≡ (ok (passed b), w') → a ≡ b
unfolding give pure
give-value a b env w w' done = cc (ap (λ (x : Result (Outcome _) × World). x.0) done)

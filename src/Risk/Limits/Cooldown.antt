-- ===== src/Risk/Limits/Cooldown.antt =====
-- A change of limits: lowering takes effect at once, raising waits for the cooldown.
use mathlib.Core.Option
use echopay.Common.{
  ==_refl, ℕ, suc, ◌+◌, ◌≤◌, ◌≡◌, refl, sym, ap, subst, ◌∙◌, Bool, true, false, ◌&&◌, none, some,
  List, [], ◌∷◌, ℤ, pos_part, is_positive, find?, update_where, select, not, leb, ◌==◌, arith,
  Option-cases, Bool-cases, inl, inr,
}
use echopay.Store.Models.{User}
use echopay.Store.Query.{found, select_one}
use echopay.Store.Users.{get_user_by_id}
use echopay.Store.Limits.{
  is_pending_of, update_user_limits, cancel_pending_limit_changes, create_pending_limit_change,
}
use echopay.World.{Env, World, ok}
use echopay.Action.{pure, raise, now, query, ◌>>=◌, handle, within, require}
use echopay.Risk.Limits.{Outcome, applied, scheduled, is_lowering, change_limits, set_limits}
use echopay.Risk.Limits.Tables.{
  awaits, cancelled-awaits, cancelled-others, first_selected, first_dropped, with_limits,
  stored-limits,
}

-- the row that an update of limits returns has the new ones
found-limits :
    (id x y t : ℕ) (us : List User) (u : User)
    → found (
        Option.map
          (λ (r : User). record r { per_tx_limit_kobo = x; per_day_limit_kobo = y; updated_at = t })
          (find? (λ r. r.id == id) us))
      ≡ ok u
    → (u.per_tx_limit_kobo ≡ x) × (u.per_day_limit_kobo ≡ y)
found-limits id x y t [] u e = cc
found-limits id x y t (r ∷ us) u e = ground (arith, found-limits id x y t us u)

-- What each outcome promises: an applied change raises neither limit of the user that was found, and
-- stands in the table, where the other users are as they were, and no change of the user waits any
-- more; a scheduled one leaves the users as they are, applies after the cooldown, with the limits asked
-- for, and is the one change of the user that now waits. The changes of the others are as they were.
abbrev pub Kept : (cooldown id : ℕ) (per_tx per_day : ℤ) (t : ℕ) → World → World → Outcome → Type 0
Kept cooldown id per_tx per_day t w w' (applied u) =
    (old : User) × (find? (λ r. r.id == id) w.users ≡ some old)
    × (u.per_tx_limit_kobo ≤ old.per_tx_limit_kobo)
    × (u.per_day_limit_kobo ≤ old.per_day_limit_kobo)
    × (u.per_tx_limit_kobo ≡ pos_part per_tx)
    × (u.per_day_limit_kobo ≡ pos_part per_day)
    × (find? (λ r. r.id == id) w'.users ≡ some u)
    × (select (λ r. not (r.id == id)) w'.users ≡ select (λ r. not (r.id == id)) w.users)
    × (select (awaits id) w'.pending_limits ≡ [])
    × (select (λ x. not (x.user_id == id)) w'.pending_limits
        ≡ select (λ x. not (x.user_id == id)) w.pending_limits)
Kept cooldown id per_tx per_day t w w' (scheduled u p) =
    (w'.users ≡ w.users)
    × (p.applies_at ≡ t + cooldown)
    × (p.per_tx_limit_kobo ≡ pos_part per_tx)
    × (p.per_day_limit_kobo ≡ pos_part per_day)
    × (p.user_id ≡ id)
    × (select (awaits id) w'.pending_limits ≡ p ∷ [])
    × (select (λ x. not (x.user_id == id)) w'.pending_limits
        ≡ select (λ x. not (x.user_id == id)) w.pending_limits)

change_limits-Kept :
    (cooldown id : ℕ) (per_tx per_day : ℤ) (old : User) (b : Bool) (env : Env) (w : World)
    (o : Outcome)
    → (v : World) → v.users ≡ w.users
    → select (awaits id) w.pending_limits ≡ []
    → (select (λ x. not (x.user_id == id)) w.pending_limits
        ≡ select (λ x. not (x.user_id == id)) v.pending_limits)
    → is_lowering per_tx per_day old ≡ b
    → find? (λ r. r.id == id) w.users ≡ some old
    → (change_limits cooldown id per_tx per_day old b env w).0 ≡ ok o
    → Kept cooldown id per_tx per_day
        (env.time w.turn)
        v
        (change_limits cooldown id per_tx per_day old b env w).1
        o
unfolding change_limits update_user_limits create_pending_limit_change now query ◌>>=◌ handle within
    pure raise
change_limits-Kept cooldown id per_tx per_day old true env w (applied u) v same none_waits rest
      lower known done =
    elim (Option-cases (env.database_fault w.turn)) [
      | inl quiet ↦
          let (tx, day) =
            found-limits id (pos_part per_tx) (pos_part per_day) (env.time w.turn) w.users u
              (ground arith) in
          let (written, others) =
            stored-limits id (pos_part per_tx) (pos_part per_day) (env.time w.turn) w.users u
              (ground arith) in
          let table : (change_limits cooldown id per_tx per_day old true env w).1.users
              ≡ update_where (λ r. r.id == id)
                  (with_limits (pos_part per_tx) (pos_part per_day) (env.time w.turn)) w.users =
            ground arith in
          let queue : (change_limits cooldown id per_tx per_day old true env w).1.pending_limits
              ≡ w.pending_limits =
            ground arith in
          (
            old,
            ap (find? (λ r. r.id == id)) same ∙ known,
            ground arith,
            ground arith,
            tx,
            day,
            ap (find? (λ r. r.id == id)) table ∙ written,
            ap (select (λ r. not (r.id == id))) table
                ∙ others
                ∙ ap (select (λ r. not (r.id == id))) (sym same),
            ap (select (awaits id)) queue ∙ none_waits,
            ap (select (λ x. not (x.user_id == id))) queue ∙ rest,
          )
      | inr (text, fault) ↦ ground arith
    ]
change_limits-Kept cooldown id per_tx per_day old true env w (scheduled u p) v same none_waits rest
      lower known done =
    ground arith
change_limits-Kept cooldown id per_tx per_day old false env w (applied u) v same none_waits rest
      lower known done =
    ground arith
change_limits-Kept cooldown id per_tx per_day old false env w (scheduled u p) v same none_waits rest
      lower known done =
    elim (Option-cases (env.database_fault (suc w.turn))) [
      | inl quiet ↦
          let table : (change_limits cooldown id per_tx per_day old false env w).1.users ≡ w.users =
            ground arith in
          let queue : (change_limits cooldown id per_tx per_day old false env w).1.pending_limits
              ≡ p ∷ w.pending_limits =
            ground arith in
          let owner : p.user_id ≡ id = ground arith in
          let waits : awaits id p ≡ true = ground (arith, ==_refl id) in
          (
            table ∙ sym same,
            ground arith,
            ground arith,
            ground arith,
            owner,
            ap (select (awaits id)) queue
                ∙ first_selected (awaits id) p w.pending_limits waits none_waits,
            ap (select (λ x. not (x.user_id == id))) queue
                ∙ first_dropped id p w.pending_limits owner
                ∙ rest,
          )
      | inr (text, fault) ↦ ground arith
    ]

-- past the guards, the lookup of the user and the cancellation of an older pending change
set_limits-passes :
    (cooldown id : ℕ) (per_tx per_day : ℤ) (env : Env) (w : World) (old : User)
    → (is_positive per_tx && is_positive per_day) ≡ true
    → leb (pos_part per_tx) (pos_part per_day) ≡ true
    → env.database_fault w.turn ≡ none
    → find? (λ r. r.id == id) w.users ≡ some old
    → env.database_fault (suc w.turn) ≡ none
    → set_limits cooldown id per_tx per_day env w
      ≡ change_limits cooldown id per_tx per_day old
          (is_lowering per_tx per_day old)
          env
          (record w {
            turn = suc (suc w.turn);
            pending_limits =
                update_where
                  (is_pending_of id)
                  (λ p. record p { cancelled_at = some (env.time (suc w.turn)) })
                  w.pending_limits;
          })
unfolding set_limits get_user_by_id select_one cancel_pending_limit_changes query ◌>>=◌ handle
    within require pure raise
set_limits-passes cooldown id per_tx per_day env w old positive ordered quiet known still =
    ground arith

-- A `SetLimits` that returns keeps what its outcome promises: where the change is applied at once,
-- the table holds the user with the limits asked for, neither above the one before, and the other
-- users as they were, and no change of this user waits any more; where it is scheduled, all users keep
-- their limits, and the pending change is of this user, has the limits asked for, applies when the
-- cooldown is over, and is the one change of this user in the table that waits. The pending changes of
-- the others are as they were.
pub set_limits-Kept :
    (cooldown id : ℕ) (per_tx per_day : ℤ) (env : Env) (w : World) (o : Outcome)
    → (set_limits cooldown id per_tx per_day env w).0 ≡ ok o
    → Kept cooldown id per_tx per_day
        (env.time (suc (suc w.turn)))
        w
        (set_limits cooldown id per_tx per_day env w).1
        o
unfolding set_limits get_user_by_id select_one cancel_pending_limit_changes query ◌>>=◌ handle
    within require pure raise
set_limits-Kept cooldown id per_tx per_day env w o done =
    elim (Option-cases (env.database_fault w.turn)) [
      | inl quiet ↦ elim (Option-cases (find? (λ r. r.id == id) w.users)) [
        | inl missing ↦ ground arith
        | inr (old, known) ↦ elim (Option-cases (env.database_fault (suc w.turn))) [
          | inl still ↦ elim (Bool-cases (is_positive per_tx && is_positive per_day)) [
            | inl positive ↦ elim (Bool-cases (leb (pos_part per_tx) (pos_part per_day))) [
              | inl ordered ↦
                  let same =
                    set_limits-passes cooldown id per_tx per_day env w old positive ordered quiet
                      known still in
                  subst
                    (λ out. Kept cooldown id per_tx per_day (env.time (suc (suc w.turn))) w out.1 o)
                    (sym same)
                    (change_limits-Kept cooldown id per_tx per_day old _ env _ o w refl
                      (cancelled-awaits id (env.time (suc w.turn)) w.pending_limits)
                      (cancelled-others id (env.time (suc w.turn)) w.pending_limits) refl known
                      (sym (ap (λ out. out.0) same) ∙ done))
              | inr above ↦ ground arith
            ]
            | inr negative ↦ ground arith
          ]
          | inr (text, fault) ↦ ground arith
        ]
      ]
      | inr (text, fault) ↦ ground arith
    ]

-- ===== src/Push/Others.antt =====
-- internal/push: the tokens that the push of a sign-in is for.
use echopay.Common.{
  ℕ, Bool, not, is_some, All, ◌≢◌, ◌==◌, ==_eq, true, false, ◌&&◌, Option, none, some, List, [],
  ◌∷◌, ◌≡◌, refl, ap, select, sort_desc_by, arith, Bool-cases, inl, inr,
}
use echopay.Store.Models.Sessions.{PushToken}
use echopay.Store.PushTokens.{is_push_token_of, is_elsewhere}

-- what a token must be to get the push of a sign-in: the user's, not revoked, and bound to no session or
-- to another one than the new
pub record IsOther (user session : ℕ) (p : PushToken) : Type 0 where
  pub owner : p.user_id ≡ user
  pub live : p.revoked_at ≡ none
  pub elsewhere : p.device_session_id ≢ some session

abbrev never : Option ℕ → Bool
never none = true
never (some t) = false

abbrev bound : ℕ → Option ℕ → Bool
bound session none = false
bound session (some s) = s == session

abbrev pub is_other : ℕ → ℕ → PushToken → Bool
is_other user session p =
    p.user_id == user && (never p.revoked_at && not (bound session p.device_session_id))

-- those tokens, the last seen first
abbrev pub other_devices : ℕ → ℕ → List PushToken → List PushToken
other_devices user session rows =
    sort_desc_by (λ p. p.last_seen_at) (select (is_other user session) rows)

never-none : (o : Option ℕ) → never o ≡ true → o ≡ none
never-none none h = refl
never-none (some t) h = cc

unbound : (session : ℕ) (o : Option ℕ) → not (bound session o) ≡ true → o ≢ some session
unbound session none h e = cc
unbound session (some s) h e = ground arith

bound_elsewhere : (session : ℕ) (o : Option ℕ) → o ≢ some session → bound session o ≡ false
bound_elsewhere session none h = refl
bound_elsewhere session (some s) h = elim (Bool-cases (s == session)) [
  | inl same ↦ absurd (h (ap some (==_eq s session same)))
  | inr differs ↦ differs
]

is_other-IsOther :
    (user session : ℕ) (p : PushToken) → is_other user session p ≡ true → IsOther user session p
is_other-IsOther user session p h =
    let (own, rest) = both (p.user_id == user) _ h in
    let (alive, apart) = both (never p.revoked_at) _ rest in
    record {
      owner = ==_eq p.user_id user own;
      live = never-none p.revoked_at alive;
      elsewhere = unbound session p.device_session_id apart;
    }
  where
    both : (a b : Bool) → a && b ≡ true → (a ≡ true) × (b ≡ true)
    both true b h = (refl, h)
    both false b h = cc

IsOther-is_other :
    (user session : ℕ) (p : PushToken) → IsOther user session p → is_other user session p ≡ true
IsOther-is_other user session p h =
    ground
      (arith, h.owner, ap never h.live, bound_elsewhere session p.device_session_id h.elsewhere)

pub chosen-IsOther :
    (user session : ℕ) (rows : List PushToken)
    → All (IsOther user session) (select (is_other user session) rows)
chosen-IsOther user session [] = tt
chosen-IsOther user session (p ∷ rows) = elim (Bool-cases (is_other user session p)) [
  | inl yes_other ↦
      rw yes_other (is_other-IsOther user session p yes_other, chosen-IsOther user session rows)
  | inr same ↦ rw same (chosen-IsOther user session rows)
]

pub passed_over :
    (user session : ℕ) (rows : List PushToken)
    → All (λ p. ¬ IsOther user session p) (select (λ p. not (is_other user session p)) rows)
passed_over user session [] = tt
passed_over user session (p ∷ rows) = elim (Bool-cases (is_other user session p)) [
  | inl yes_other ↦ rw yes_other (passed_over user session rows)
  | inr same ↦ rw same (
    (λ h. absurd (ground (arith, IsOther-is_other user session p h))),
    passed_over user session rows,
  )
]

same_test :
    (own : Bool) (session : ℕ) (r d : Option ℕ)
    → (own && not (is_some r)) && is_elsewhere session d ≡ own && (never r && not (bound session d))
same_test true session none none = refl
same_test true session none (some s) = refl
same_test true session (some t) d = refl
same_test false session r d = refl

pub same_choice :
    (user session : ℕ) (rows : List PushToken)
    → select (λ p. is_push_token_of user p && is_elsewhere session p.device_session_id) rows
      ≡ select (is_other user session) rows
same_choice user session [] = refl
same_choice user session (p ∷ rows) = ground (
  arith,
  same_test (p.user_id == user) session p.revoked_at p.device_session_id,
  same_choice user session rows,
)

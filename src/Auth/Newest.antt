-- ===== src/Auth/Newest.antt =====
-- The latest request of a table to which a new one is added.
use echopay.Common.{
  ℕ, ◌≤◌, Bool, some, List, [], ◌∷◌, ◌≡◌, select, update_where, latest, arith, All, inl, inr,
  Option-cases, Bool-cases,
}
use echopay.Store.Models.Sessions.{OtpRequest}

-- rows that are no newer than a time stay so when they expire
abbrev pub Old : ℕ → List OtpRequest → Type 0
Old t rows = All (λ r. r.created_at ≤ t) rows

pub select-Old :
    (test : OtpRequest → Bool) (t : ℕ) (rows : List OtpRequest)
    → Old t rows
    → Old t (select test rows)
select-Old test t [] old = tt
select-Old test t (x ∷ rows) (here, later) = elim (Bool-cases (test x)) [
  | inl kept ↦ rw kept (here, select-Old test t rows later)
  | inr dropped ↦ rw dropped (select-Old test t rows later)
]

pub expired-Old :
    (test : OtpRequest → Bool) (t s : ℕ) (rows : List OtpRequest)
    → Old t rows
    → Old t (update_where test (λ r. record r { expires_at = s }) rows)
expired-Old test t s [] old = tt
expired-Old test t s (x ∷ rows) (here, later) = elim (Bool-cases (test x)) [
  | inl kept ↦ (rw kept here, expired-Old test t s rows later)
  | inr dropped ↦ (rw dropped here, expired-Old test t s rows later)
]

pub latest-Old :
    (t : ℕ) (rows : List OtpRequest) (y : OtpRequest)
    → Old t rows
    → latest (λ r. r.created_at) rows ≡ some y
    → y.created_at ≤ t
latest-Old t [] y old h = cc
latest-Old t (x ∷ rows) y (here, later) h = elim (Option-cases (latest (λ r. r.created_at) rows)) [
  | inl empty ↦ ground arith
  | inr (z, known) ↦ ground (arith, latest-Old t rows z later known)
]

-- of rows none of which is newer than the first, the first is the latest
pub latest_head :
    (x : OtpRequest) (rows : List OtpRequest)
    → Old x.created_at rows
    → latest (λ r. r.created_at) (x ∷ rows) ≡ some x
latest_head x rows old = elim (Option-cases (latest (λ r. r.created_at) rows)) [
  | inl empty ↦ ground arith
  | inr (y, known) ↦ ground (arith, latest-Old x.created_at rows y old known)
]

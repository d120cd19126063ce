-- ===== src/Kyc/Submitted.antt =====
-- What a SubmitBVN that goes through has checked and written.
use echopay.Common.{
  ℕ, suc, not, select, find?-updated, select-others, refl, ◌≤◌, String, true, some, length,
  all_digits, ◌≡◌, sym, ap, ◌∙◌, subst, find?, ◌==◌, arith, inl, inr, Option-cases,
}
use echopay.Store.Models.{User}
use echopay.Store.Accounts.{update_user, update_user_kyc}
use echopay.World.{Env, World, Result, ok}
use echopay.Action.Ends.{ask-ends, bind_then, require_then, now_then, within-ends, query-ends}
use echopay.Kyc.{Provider, SubmitBvnRequest, is_bvn, submit_bvn}
use echopay.Kyc.Calendar.{thirteen_years_before}

update_user-ends :
    (id : ℕ) (change : User → User) (env : Env) (w w' : World) (u : User)
    → ((x : User) → (change x).id ≡ x.id)
    → update_user id change env w ≡ (ok u, w')
    → (before : User) × (find? (λ x. x.id == id) w.users ≡ some before)
      × (u ≡ record (change before) { updated_at = env.time w.turn })
      × (find? (λ x. x.id == id) w'.users ≡ some u)
      × (select (λ x. not (x.id == id)) w'.users ≡ select (λ x. not (x.id == id)) w.users)
unfolding update_user
update_user-ends id change env w w' u keeps done =
    let t = env.time w.turn in
    let ran = query-ends _ env w w' u done in
    let rows = ap (λ (x : Result User × World). x.1.users) (sym ran) in
    let same = λ (x : User). ap (λ n. n == id) (keeps x) in
    elim (Option-cases (find? (λ x. x.id == id) w.users)) [
      | inl missing ↦ ground arith
      | inr (before, known) ↦
          let row : u ≡ record (change before) { updated_at = t } = ground arith in
          (
            before,
            known,
            row,
            ap (find? (λ x. x.id == id)) rows
                ∙ find?-updated (λ x. x.id == id) (λ x. record (change x) { updated_at = t }) same
                    w.users before known
                ∙ ap some (sym row),
            ap (select (λ x. not (x.id == id))) rows
                ∙ select-others (λ x. x.id == id) (λ x. record (change x) { updated_at = t }) same
                    w.users,
          )
    ]

-- the row of a user with the verified identity of the request
abbrev pub kyc_row : SubmitBvnRequest → String → User → User
kyc_row req hash before = record before {
  full_name = some req.full_name;
  bvn_hash = some hash;
  date_of_birth = some req.date_of_birth;
  kyc_tier = 1;
  kyc_status = "verified";
}

-- A user who has been verified, from the world before to the world after.
pub record Submitted (verify : Provider) (req : SubmitBvnRequest) (env : Env) (w : World) (u : User)
    (w' : World) : Type 0 where
  pub digits : (length req.bvn ≡ 11) × (all_digits req.bvn ≡ true)
  pub old_enough : req.date_of_birth ≤ thirteen_years_before (env.time w.turn)
  pub verified : verify (suc w.turn) req.bvn req.full_name req.date_of_birth ≡ ok tt
  pub hash : String
  pub hashed : env.hash_password (suc (suc w.turn)) req.bvn ≡ ok hash
  pub before : User
  pub known : find? (λ x. x.id == req.user_id) w.users ≡ some before
  pub row : u ≡ record (kyc_row req hash before) { updated_at = env.time (suc (suc (suc w.turn))) }
  pub written : find? (λ x. x.id == req.user_id) w'.users ≡ some u
  pub others :
      select (λ x. not (x.id == req.user_id)) w'.users
      ≡ select (λ x. not (x.id == req.user_id)) w.users

-- A SubmitBVN that returns has been given eleven digits and a date of birth at least thirteen years
-- ago, the provider has accepted them, and the table holds the row of the user as it was but for the
-- verified identity, with the hash of the BVN in place of the BVN, and the rows of the others as they
-- were.
pub submit_bvn-Submitted :
    (verify : Provider) (req : SubmitBvnRequest) (env : Env) (w w' : World) (u : User)
    → submit_bvn verify req env w ≡ (ok u, w')
    → Submitted verify req env w u w'
unfolding submit_bvn update_user_kyc
submit_bvn-Submitted verify req env w w' u done =
    let (digits, d1) = require_then (is_bvn req.bvn) _ _ env w w' u done in
    let d2 = now_then _ env w (ok u, w') d1 in
    let (old, d3) = require_then _ _ _ env (record w { turn = suc w.turn }) w' u d2 in
    bind_then _ _ env (record w { turn = suc w.turn }) w' u d3
      λ _ w2 asked d4. bind_then _ _ env w2 w' u d4 λ hash w3 hashed d5.
        let (said, moved) = ask-ends _ env (record w { turn = suc w.turn }) w2 _ asked in
        let (made, moved2) = ask-ends _ env w2 w3 hash (within-ends _ _ env w2 w3 hash hashed) in
        let same : record w { turn = suc (suc (suc w.turn)) } ≡ w3 =
          ap (λ (x : World). record x { turn = suc x.turn }) moved ∙ moved2 in
        let (before, known, row, written, others) =
          update_user-ends _ _ env w3 w' u (λ x. refl) d5 in
        record {
          digits = ground arith;
          old_enough = ground arith;
          verified = said;
          hash = hash;
          hashed =
              subst (λ (x : World). env.hash_password x.turn req.bvn ≡ ok hash) (sym moved) made;
          before = before;
          known =
              subst (λ (x : World). find? (λ r. r.id == req.user_id) x.users ≡ some before)
                (sym same) known;
          row =
              row
              ∙ ap
                  (λ (x : World). record (kyc_row req hash before) { updated_at = env.time x.turn })
                  (sym same);
          written = written;
          others =
              others
              ∙ ap (λ (x : World). select (λ r. not (r.id == req.user_id)) x.users) (sym same);
        }

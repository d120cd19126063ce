-- ===== src/Auth/Same.antt =====
-- Actions that leave the users and the sessions as they are.
use echopay.Common.{ℕ, String, Option, none, some, List, [], ◌∷◌, Bytes, ◌≡◌, refl, ◌∙◌}
use echopay.Codec.{Codec, Claims}
use echopay.Store.Records.{accepts_event, insert_audit_event, InsertAuditEventParams}
use echopay.World.{World}
use echopay.Action.Steps.{Frame, Steps, Steps-query, if_cases, steps_rules}
use echopay.Audit.{Event, record_event}
use echopay.Push.{notify_new_device_login, notify_account_locked}
use echopay.Push.Fanout.{notify_new_device_login-Steps, notify_account_locked-Steps}
use echopay.Auth.Jwt.{configured, unexpired, claims_of, checked, parse_parts, parse}

-- the users and the sessions are as they were
pub record SameAccounts (w w' : World) : Type 0 where
  pub users : w'.users ≡ w.users
  pub sessions : w'.device_sessions ≡ w.device_sessions

pub SameAccounts-frame : Frame SameAccounts
SameAccounts-frame = record {
  stays = λ w. record { users = refl; sessions = refl };
  goes_on = λ a b c h k. record { users = k.users ∙ h.users; sessions = k.sessions ∙ h.sessions };
  ticks = λ w n. record { users = refl; sessions = refl };
}

pub notify-SameAccounts :
    (user session : ℕ) (label : String)
    → Steps SameAccounts (notify_new_device_login user session label)
notify-SameAccounts =
    notify_new_device_login-Steps SameAccounts-frame
      (λ w n rows sent. record { users = refl; sessions = refl })

insert_audit_event-SameAccounts :
    (a : InsertAuditEventParams) → Steps SameAccounts (insert_audit_event a)
unfolding insert_audit_event
insert_audit_event-SameAccounts a = Steps-query SameAccounts-frame _ (λ t u w.
    if_cases SameAccounts w (accepts_event a w) _ _ (λ _. record { users = refl; sessions = refl })
      (SameAccounts-frame.stays w))

pub record_event-SameAccounts : (e : Event) → Steps SameAccounts (record_event e)
unfolding record_event
record_event-SameAccounts e = search (steps_rules, insert_audit_event-SameAccounts)

pub notify_locked-SameAccounts : (user : ℕ) → Steps SameAccounts (notify_account_locked user)
notify_locked-SameAccounts =
    notify_account_locked-Steps SameAccounts-frame
      (λ w n rows sent. record { users = refl; sessions = refl })

-- a parse only reads the clock
module _ {R : World → World → Type 0} (frame : Frame R) where
  unexpired-Steps : (o : Option Claims) → Steps R (unexpired o)
  unexpired-Steps none = search (steps_rules, frame)
  unexpired-Steps (some c) = search (steps_rules, frame)

  claims_of-Steps : (c : Codec) (o : Option Bytes) → Steps R (claims_of c o)
  claims_of-Steps c none = search (steps_rules, frame)
  claims_of-Steps c (some payload) = unexpired-Steps _

  checked-Steps :
      (c : Codec) (header payload : Bytes) (o : Option Bytes) → Steps R (checked c header payload o)
  checked-Steps c header payload none = search (steps_rules, frame)
  checked-Steps c header payload (some got) = search (steps_rules, frame, claims_of-Steps)

  parts-Steps : (c : Codec) (parts : List Bytes) → Steps R (parse_parts c parts)
  parts-Steps c [] = search (steps_rules, frame)
  parts-Steps c (a ∷ []) = search (steps_rules, frame)
  parts-Steps c (a ∷ b ∷ []) = search (steps_rules, frame)
  parts-Steps c (a ∷ b ∷ s ∷ []) = checked-Steps c a b (c.decode s)
  parts-Steps c (a ∷ b ∷ s ∷ d ∷ more) = search (steps_rules, frame)

  configured-Steps : Steps R configured
  unfolding configured
  configured-Steps = record { at = λ env w. frame.stays w }

  pub parse-Steps : (token : Bytes) → Steps R (parse token)
  unfolding parse
  parse-Steps token = search (steps_rules, frame, configured-Steps, parts-Steps)

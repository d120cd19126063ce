-- ===== src/Tests/Viewed.antt =====
-- Alice looks at a payment of hers.
use echopay.Common.{ℕ, String, Option, none, some, [], ◌∷◌, ◌≡◌, refl, if◌then◌else◌, str_eq}
use echopay.Store.Query.{select_one}
use echopay.Store.Users.{get_user_by_id}
use echopay.Store.Payments.{get_payment_by_id}
use echopay.Store.Devices.{get_active_device_session_by_jti, update_sessions, touch_device_session}
use echopay.World.{World, ok}
use echopay.Action.{pure, raise, now, query, ◌>>=◌, ignore, attempt}
use echopay.Auth.Jwt.{configured, parse, split_dots, write_token}
use echopay.Http.{passed, refuse, give, Context, for_user}
use echopay.Http.Auth.{touch, authenticate, behind_auth}
use echopay.Http.Auth.Admitted.{Admitted}
use echopay.Payments.Handler.{get_page}
use echopay.Payments.Handler.Parties.{Shown, get_page-Party}
use echopay.Tests.Data.{held_payment, sunny}
use echopay.Tests.Pages.{signed_in_world, header_for}

abbrev parse_ten : String → Option ℕ
parse_ten s = if str_eq s "10" then some 10 else none

abbrev busy_world : World
busy_world = record signed_in_world { payments = held_payment ∷ [] }

abbrev after_look : World
after_look = (behind_auth (header_for 1 41) (λ c. get_page parse_ten c "10") sunny busy_world).1

payment_is_shown :
    behind_auth (header_for 1 41) (λ c. get_page parse_ten c "10") sunny busy_world
    ≡ (ok (passed held_payment), after_look)
unfolding behind_auth get_page get_payment_by_id for_user authenticate parse configured write_token
    split_dots get_active_device_session_by_jti get_user_by_id select_one attempt touch
    touch_device_session update_sessions ignore query now ◌>>=◌ pure raise refuse give
payment_is_shown = refl

get_page-Party_example :
    (c : Context) × Admitted sunny (header_for 1 41) busy_world c
    × Shown (parse_ten "10") busy_world c held_payment
get_page-Party_example =
    get_page-Party parse_ten (header_for 1 41) "10" sunny busy_world after_look held_payment
      payment_is_shown

-- ===== src/Payments/Activity.antt =====
-- internal/payments/service.go: `ListUserActivity`, a page of a user's payments.
use echopay.Common.{ℕ, ◌&&◌, List, ℤ, pos_part, is_positive, leb, if◌then◌else◌}
use echopay.Store.Models.{Payment}
use echopay.Store.Payments.{list_user_payments}
use echopay.Action.{Action}

-- `limit <= 0 || limit > 100` gives a page of 50
abbrev pub page_size : ℤ → ℕ
page_size limit = if is_positive limit && leb (pos_part limit) 100 then pos_part limit else 50

-- a negative offset is 0
unfoldable pub list_user_activity : ℕ → ℤ → ℤ → Action (List Payment)
list_user_activity user limit offset = list_user_payments user (page_size limit) (pos_part offset)

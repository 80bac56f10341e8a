-- ===== src/Tests/Ids.antt =====
-- The identifiers.
use txbox.Common.{◌≡◌, ◌≤◌, ◌↔◌}
use txbox.Error.{InvalidId}
use txbox.Result.{ok, err}
use txbox.Str.{str, len, is_whitespace, bytes, utf8}
use txbox.Types.{check_id, MessageId, message_id_try_from, message_max_len, scoped}
use txbox.Types.Ids.{check_id_lem, message_id_try_from-ok_iff, IsClean, verdict}
use txbox.Types.Scoped.{scoped_lem, scoped_verdict, scoped-injective}

abbrev order_id : MessageId
order_id = record { as_str = str "orders:17" }

scoped-order : scoped (str "orders") (str "17") ≡ ok order_id
unfolding is_whitespace len bytes utf8
scoped-order = scoped_lem (str "orders") (str "17")

scoped-colon : scoped (str "a:b") (str "c") ≡ err InvalidId.scope_contains_separator
unfolding is_whitespace len bytes utf8
scoped-colon = scoped_lem (str "a:b") (str "c")

scoped-padded : scoped (str "orders") (str " 17") ≡ err InvalidId.surrounding_whitespace
unfolding is_whitespace len bytes utf8
scoped-padded = scoped_lem (str "orders") (str " 17")

scoped-injective_example : (str "orders" ≡ str "orders") × (str "17" ≡ str "17")
scoped-injective_example =
    scoped-injective (str "orders") (str "orders") (str "17") (str "17") order_id scoped-order
      scoped-order

scoped_lem_example : scoped (str "orders") (str "") ≡ scoped_verdict (str "orders") (str "")
scoped_lem_example = scoped_lem (str "orders") (str "")

check_id_lem_example : check_id 3 (str "abcd") ≡ verdict 3 (str "abcd")
check_id_lem_example = check_id_lem 3 (str "abcd")

message_id_try_from-ok_iff_example : (message_id_try_from (str "orders:17") ≡ ok order_id) ↔ (
    (order_id.as_str ≡ str "orders:17")
    × IsClean (str "orders:17")
    × (len (str "orders:17") ≤ message_max_len))
message_id_try_from-ok_iff_example = message_id_try_from-ok_iff (str "orders:17") order_id

-- ===== src/Types/Ids.antt =====
-- What the validation of identifiers accepts, and which error it reports.
use txbox.Common.{ℕ, ◌≤◌, ◌≡◌, ◌↔◌, false, ◌||◌, arith, if◌then◌else◌, ltb, nat_eq}
use txbox.Error.{InvalidId}
use txbox.Result.{Result, ok, err}
use txbox.Str.{Str, len}
use txbox.Str.Trim.{all_space, first_space, last_space, is_empty-trim, len-trim}
use txbox.Types.{check_id, check_part, MessageId, message_id_try_from, message_max_len}

-- What a text must be to serve as an identifier.
pub record IsClean (v : Str) : Type 0 where
  pub not_blank : all_space v ≡ false
  pub starts_clean : first_space v ≡ false
  pub ends_clean : last_space v ≡ false

-- The validation, told without `trim`.
abbrev pub verdict : ℕ → Str → Result InvalidId Str
verdict max_len v =
    if all_space v
    then err InvalidId.empty
    else if first_space v || last_space v
    then err InvalidId.surrounding_whitespace
    else if ltb max_len (len v)
    then err (InvalidId.too_long (len v) max_len)
    else ok v

-- On every text the validation answers by the first of these that holds: `Empty` for a text of
-- whitespace, `SurroundingWhitespace` if the first or the last character is whitespace, `TooLong`
-- if its bytes pass the limit; otherwise it accepts the text as it stands.
pub check_id_lem : (max_len : ℕ) (v : Str) → check_id max_len v ≡ verdict max_len v
unfolding check_id
check_id_lem max_len v = ground (arith, is_empty-trim v, len-trim v)

pub check_part_lem :
    (v : Str)
    → check_part v ≡ (
        if all_space v
        then err InvalidId.empty
        else if first_space v || last_space v
        then err InvalidId.surrounding_whitespace
        else ok tt)
unfolding check_part
check_part_lem v = ground (arith, is_empty-trim v, len-trim v)

-- A message id is constructed from a text exactly when the text is not blank, neither begins nor
-- ends with whitespace and has at most 512 bytes; the id then holds that text unchanged.
pub message_id_try_from-ok_iff :
    (v : Str) (m : MessageId)
    → (message_id_try_from v ≡ ok m) ↔ ((m.as_str ≡ v) × IsClean v × (len v ≤ message_max_len))
unfolding message_id_try_from
message_id_try_from-ok_iff v m = (
  λ h. ground (arith, is_empty-trim v, len-trim v),
  λ h. ground (arith, is_empty-trim v, len-trim v),
)

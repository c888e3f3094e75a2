-- ===== src/Command/Options.antt =====
-- command/parser.rs, `parse_set_options`.
use sider.Prelude.{suc}
use sider.Prelude.{
  zero, suc, Bool, true, false, ◌&&◌, ◌||◌, not, Option, none, some, List, [], ◌∷◌, if◌then◌else◌,
  Result, ok, err, and_then, ok_or,
}
use sider.Prelude.Int.{ℤ, pos, negsuc}
use sider.Prelude.Machine.{checked_mul_i64}
use sider.Resp.Frame.{Bytes}
use sider.Storage.Memory.{SetCondition}
use sider.Command.Types.{SetExpiry, SetOptions}
use sider.Command.Names.{named, RequestError, syntax, invalid_integer, invalid_set_expiry}
use sider.Command.Decimal.{parse_decimal}

unfoldable pub parse_integer : Bytes → Result ℤ RequestError
parse_integer value = ok_or (parse_decimal value) invalid_integer

abbrev is_missing : SetCondition → Bool
is_missing SetCondition.missing = true
is_missing _ = false

abbrev is_present : SetCondition → Bool
is_present SetCondition.present = true
is_present _ = false

abbrev is_keep : SetExpiry → Bool
is_keep SetExpiry.keep = true
is_keep _ = false

abbrev is_none {ℓ} : {A : Type ℓ} → Option A → Bool
is_none none = true
is_none (some a) = false

-- The locals of the loop.
pub record Reading : Type 0 where
  pub options : SetOptions
  pub duration : Option Bytes
  pub unit : Option Bool

abbrev pub start : Reading
start = record {
  options = record {
    condition = SetCondition.always;
    expiry = SetExpiry.persistent;
    return_previous = false;
  };
  duration = none;
  unit = none;
}

-- `unit.is_some_and(|previous| previous != seconds)`.
abbrev other_unit : Option Bool → Bool → Bool
other_unit none seconds = false
other_unit (some true) seconds = not seconds
other_unit (some false) seconds = seconds

-- A word of the options: the new locals, or the word asks for a duration in its unit, or an error.
pub data Word : Type 0 where
  plain : Reading → Word
  timed : Bool → Word
  bad : Word

unfoldable pub word : Reading → Bytes → Word
word r option =
    if named option "NX" && not (is_present r.options.condition)
    then plain (record r { options = record (r.options) { condition = SetCondition.missing } })
    else if named option "XX" && not (is_missing r.options.condition)
    then plain (record r { options = record (r.options) { condition = SetCondition.present } })
    else if named option "GET"
    then plain (record r { options = record (r.options) { return_previous = true } })
    else if named option "KEEPTTL" && is_none r.duration
    then plain (record r { options = record (r.options) { expiry = SetExpiry.keep } })
    else if (named option "EX" || named option "PX") && not (is_keep r.options.expiry)
    then (if other_unit r.unit (named option "EX") then bad else timed (named option "EX"))
    else bad

-- The loop, which takes a duration with its word.
unfoldable pub read_words : Reading → List Bytes → Result Reading RequestError
read_words r [] = ok r
read_words r (option ∷ []) = elim (word r option) [
  | plain r' ↦ ok r'
  | timed seconds ↦ err syntax
  | bad ↦ err syntax
]
read_words r (option ∷ (value ∷ args)) = elim (word r option) [
  | plain r' ↦ read_words r' (value ∷ args)
  | timed seconds ↦ read_words (record r { duration = some value; unit = some seconds }) args
  | bad ↦ err syntax
]

abbrev pub is_seconds : Option Bool → Bool
is_seconds (some true) = true
is_seconds _ = false

abbrev pub millis : Option Bool → ℤ → Result ℤ RequestError
millis unit value =
    if is_seconds unit
    then ok_or (checked_mul_i64 value (pos 1000)) invalid_set_expiry
    else ok value

-- `Duration::from_millis(millis as u64)` of a positive number.
abbrev pub expire_after : SetOptions → ℤ → Result SetOptions RequestError
expire_after options (pos (suc n)) = ok (record options { expiry = SetExpiry.after (suc n) })
expire_after options (pos zero) = err invalid_set_expiry
expire_after options (negsuc n) = err invalid_set_expiry

abbrev pub finish_with : Reading → Option Bytes → Result SetOptions RequestError
finish_with r none = ok r.options
finish_with r (some value) =
    and_then (parse_integer value) (λ v. and_then (millis r.unit v) (expire_after r.options))

unfoldable pub finish_options : Reading → Result SetOptions RequestError
finish_options r = finish_with r r.duration

unfoldable pub parse_set_options : List Bytes → Result SetOptions RequestError
parse_set_options args = and_then (read_words start args) finish_options

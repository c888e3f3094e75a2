-- ===== src/Storage/Strings.antt =====
-- storage/mod.rs, `execute_inner`: GET, SET, DEL, EXISTS, INCR and DECR on one store.
-- `insert` of a string resolves no member deadlines. The results are the reply and the store, and
-- `none` is a panic of the accounting.
use sider.Prelude.{
  ℕ, zero, suc, ◌+◌, ◌-◌, ◌^◌, leb, Bool, true, false, ◌&&◌, not, Option, none, some, List, [], ◌∷◌,
  if◌then◌else◌, option_bind,
}
use sider.Prelude.Int.{ℤ, pos}
use sider.Prelude.Machine.{checked_add_i64}
use sider.Resp.Frame.{Bytes}
use sider.Resp.Encoder.{decimal_i64}
use sider.Command.Types.{SetOptions, SetExpiry}
use sider.Command.Reply.{
  Reply, done, bulk, integer, error, wrong_type, invalid_integer, integer_overflow,
  invalid_set_expiry, out_of_memory,
}
use sider.Command.Decimal.{parse_decimal}
use sider.Storage.Memory.{SetCondition}
use sider.Storage.Value.{Value, as_string}
use sider.Storage.Store.{Entry, Store, find, remove, install_entry, can_replace, expire_key}

-- `after` is `Instant::checked_add` of a number of milliseconds to `now`.
pub record Clock : Type 0 where
  pub now : ℕ
  pub unix_millis : ℤ
  pub after : ℕ → Option ℕ

abbrev pub Executed : Type 0
Executed = Option (Reply × Store)

abbrev pub string_entry : Bytes → Option (ℕ × ℤ) → Entry
string_entry value none = record {
  value = Value.string value;
  expires_at = none;
  expires_at_unix_ms = none;
  generation = 0;
  member_deadlines = [];
}
string_entry value (some (deadline, unix)) = record {
  value = Value.string value;
  expires_at = some deadline;
  expires_at_unix_ms = some unix;
  generation = 0;
  member_deadlines = [];
}

-- `insert`, after `can_replace` has been asked; a refusal is out of memory.
unfoldable pub replace : Bytes → Bytes → Option (ℕ × ℤ) → Reply → Store → Executed
replace key value expiry reply s =
    let installed =
      option_bind (install_entry key (string_entry value expiry) s) (λ s'. some (reply, s')) in
    if can_replace key (Value.string value) s then installed else some (error out_of_memory, s)

-- `expires_at.zip(expires_at_unix_ms)`.
abbrev pub zip_expiry : Option ℕ → Option ℤ → Option (ℕ × ℤ)
zip_expiry (some deadline) (some unix) = some (deadline, unix)
zip_expiry _ _ = none

abbrev pub entry_expiry : Option Entry → Option (ℕ × ℤ)
entry_expiry none = none
entry_expiry (some entry) = zip_expiry entry.expires_at entry.expires_at_unix_ms

-- The string under a key: absent, of another type, or its bytes.
pub data Found : Type 0 where
  absent other : Found
  bytes : Bytes → Found

abbrev pub string_or_other : Option Bytes → Found
string_or_other none = other
string_or_other (some value) = bytes value

abbrev pub found_string : Option Entry → Found
found_string none = absent
found_string (some entry) = string_or_other (as_string entry.value)

abbrev pub get_reply : Found → Reply
get_reply absent = bulk none
get_reply other = error wrong_type
get_reply (bytes value) = bulk (some value)

unfoldable pub get : Bytes → ℕ → Store → Executed
get key now s =
    option_bind (expire_key key now s) (λ t. some (get_reply (found_string (find key t.values)), t))

abbrev pub write_integer : Bytes → Option (ℕ × ℤ) → Store → Option ℤ → Executed
write_integer key expiry s none = some (error integer_overflow, s)
write_integer key expiry s (some value) = replace key (decimal_i64 value) expiry (integer value) s

unfoldable pub incremented : Bytes → ℤ → Option (ℕ × ℤ) → Store → Option ℤ → Executed
incremented key delta expiry s none = some (error invalid_integer, s)
incremented key delta expiry s (some previous) =
    write_integer key expiry s (checked_add_i64 previous delta)

abbrev pub increment_found : Bytes → ℤ → Option (ℕ × ℤ) → Store → Found → Executed
increment_found key delta expiry s absent = incremented key delta expiry s (some (pos 0))
increment_found key delta expiry s other = some (error wrong_type, s)
increment_found key delta expiry s (bytes value) =
    incremented key delta expiry s (parse_decimal value)

unfoldable pub increment : Bytes → ℤ → ℕ → Store → Executed
increment key delta now s = option_bind (expire_key key now s) (λ t.
    increment_found key delta (entry_expiry (find key t.values)) t
      (found_string (find key t.values)))

-- The deadline of SET: `none` where it does not fit.
unfoldable pub deadline : Clock → ℕ → Option (ℕ × ℤ)
deadline clock millis =
    option_bind (checked_add_i64 clock.unix_millis (pos millis))
      (λ unix. option_bind (clock.after millis) (λ at. some (at, unix)))

abbrev pub is_absent : Found → Bool
is_absent absent = true
is_absent _ = false

abbrev pub unmet : SetCondition → Found → Bool
unmet SetCondition.missing found = not (is_absent found)
unmet SetCondition.present found = is_absent found
unmet SetCondition.always found = false

abbrev pub set_reply : Bool → Found → Reply
set_reply true found = get_reply found
set_reply false found = done

abbrev pub kept_expiry : SetExpiry → Option (ℕ × ℤ) → Option (ℕ × ℤ) → Option (ℕ × ℤ)
kept_expiry SetExpiry.keep previous new = previous
kept_expiry _ previous new = new

abbrev pub is_other : Found → Bool
is_other other = true
is_other _ = false

-- SET once the deadline is known and the key has been expired.
unfoldable pub set_live : Bytes → Bytes → SetOptions → Option (ℕ × ℤ) → Store → Executed
set_live key value options new t =
    let found : Found = found_string (find key t.values) in
    if options.return_previous && is_other found
    then some (error wrong_type, t)
    else if unmet options.condition found
    then some (if options.return_previous then set_reply true found else bulk none, t)
    else replace key value (kept_expiry options.expiry (entry_expiry (find key t.values)) new)
        (set_reply options.return_previous found) t

abbrev pub set_with : Bytes → Bytes → SetOptions → ℕ → Store → Option (ℕ × ℤ) → Executed
set_with key value options now s new =
    option_bind (expire_key key now s) (set_live key value options new)

abbrev pub set_after : Bytes → Bytes → SetOptions → ℕ → Store → Option (ℕ × ℤ) → Executed
set_after key value options now s none = some (error invalid_set_expiry, s)
set_after key value options now s (some at) = set_with key value options now s (some at)

abbrev pub set_expiry : Bytes → Bytes → SetOptions → Clock → Store → SetExpiry → Executed
set_expiry key value options clock s (SetExpiry.after zero) = some (error invalid_set_expiry, s)
set_expiry key value options clock s (SetExpiry.after (suc n)) =
    set_after key value options clock.now s
      (if leb (suc n) (2 ^ 63 - 1) then deadline clock (suc n) else none)
set_expiry key value options clock s SetExpiry.keep = set_with key value options clock.now s none
set_expiry key value options clock s SetExpiry.persistent =
    set_with key value options clock.now s none

unfoldable pub set : Bytes → Bytes → SetOptions → Clock → Store → Executed
set key value options clock s = set_expiry key value options clock s options.expiry

abbrev pub counted : Option Entry → ℕ → ℕ
counted none n = n
counted (some entry) n = n + 1

-- The loop of DEL.
unfoldable pub del_keys : List Bytes → ℕ → ℕ → Store → Executed
del_keys [] now removed s = some (integer (pos removed), s)
del_keys (key ∷ keys) now removed s =
    option_bind (expire_key key now s)
      (λ t. option_bind (remove key t) (λ r. del_keys keys now (counted r.0 removed) r.1))

unfoldable pub del : List Bytes → ℕ → Store → Executed
del keys now s = del_keys keys now 0 s

unfoldable pub exists_keys : List Bytes → ℕ → ℕ → Store → Executed
exists_keys [] now present s = some (integer (pos present), s)
exists_keys (key ∷ keys) now present s =
    option_bind (expire_key key now s)
      (λ t. exists_keys keys now (counted (find key t.values) present) t)

unfoldable pub exists : List Bytes → ℕ → Store → Executed
exists keys now s = exists_keys keys now 0 s

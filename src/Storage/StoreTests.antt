-- ===== src/Storage/StoreTests.antt =====
-- A small store at work, and the theorems on stores at concrete inputs.
use sider.Prelude.{◌+◌}
use sider.Prelude.{ℕ, ◌≡◌, refl, true, false, Option, none, some, List, [], ◌∷◌}
use sider.Prelude.Int.{pos, negsuc}
use sider.Command.Types.{SetOptions, SetExpiry}
use sider.Command.Names.{text}
use sider.Prelude.Machine.{checked_mul_i64, checked_sub_i64, checked_add_i64}
use sider.Resp.Number.{
  parse_integer, parse_signed, split_sign, negative_value, push_digit_i64, negate,
}
use sider.Resp.Encoder.{decimal, decimal_i64, digits_fuel}
use sider.Command.Decimal.{parse_decimal, canonical_digits}
use sider.Storage.Memory.{SetCondition}
use sider.Storage.Value.{Value, logical_bytes}
use sider.Storage.Store.{
  Entry, Event, Store, find, entry_bytes, remove, install_entry, can_replace, proposed, expire_key,
  charge, erase, insert_event, insert_member, invalidate, released, remove_event, remove_member,
  with_entry, without,
}
use sider.Command.Reply.{Reply}
use sider.Storage.Accounting.{
  IsAccounted, Removes, Replaces, remove-IsAccounted, install_entry-IsAccounted,
}
use sider.Storage.Strings.{Clock, set, increment, get, del, string_entry, incremented, replace}
use sider.Storage.Execution.{Keeps, set-Keeps, increment-Keeps, del-Keeps}

abbrev clock : Clock
clock = record { now = 50; unix_millis = pos 1000; after = λ millis. some (50 + millis) }

abbrev expiring : Entry
expiring = record {
  value = Value.string (text "41");
  expires_at = some 90;
  expires_at_unix_ms = some (pos 1040);
  generation = 1;
  member_deadlines = [];
}

abbrev small : Store
small = record {
  values = (text "k", expiring) ∷ [];
  expirations = record { deadline = 90; generation = 1; key = text "k" } ∷ [];
  member_expirations = [];
  generation = 1;
  max_dataset_bytes = 200;
  used_bytes = 131;
  watches = (text "k", 7) ∷ [];
  changed = [];
}

abbrev reply_of : Option (Reply × Store) → Option Reply
reply_of none = none
reply_of (some (r, s)) = some r

abbrev changed_of : Option (Reply × Store) → List ℕ
changed_of none = []
changed_of (some (r, s)) = s.changed

abbrev plain : SetOptions
plain = record {
  condition = SetCondition.always;
  expiry = SetExpiry.persistent;
  return_previous = false;
}

counts_up : reply_of (increment (text "k") (pos 1) 50 small) ≡ some (Reply.integer (pos 42))
unfolding increment expire_key find incremented parse_decimal canonical_digits parse_integer
    parse_signed split_sign negative_value push_digit_i64 checked_mul_i64 checked_sub_i64 negate
    checked_add_i64 replace can_replace proposed entry_bytes logical_bytes decimal decimal_i64
    digits_fuel charge erase insert_event insert_member install_entry invalidate released remove
    remove_event remove_member with_entry without
counts_up = refl

tells_watchers : changed_of (increment (text "k") (pos 1) 50 small) ≡ 7 ∷ []
unfolding increment expire_key find incremented parse_decimal canonical_digits parse_integer
    parse_signed split_sign negative_value push_digit_i64 checked_mul_i64 checked_sub_i64 negate
    checked_add_i64 replace can_replace proposed entry_bytes logical_bytes decimal decimal_i64
    digits_fuel charge erase insert_event insert_member install_entry invalidate released remove
    remove_event remove_member with_entry without
tells_watchers = refl

forgets_in_time : reply_of (get (text "k") 90 small) ≡ some (Reply.bulk none)
unfolding get sider.Storage.Store.expire_key find remove sider.Storage.Store.released entry_bytes
    logical_bytes sider.Storage.Store.without sider.Storage.Store.erase
    sider.Storage.Store.invalidate
forgets_in_time = refl

over_quota :
    reply_of (set (text "other") (text "x") plain clock small)
    ≡ some (Reply.error sider.Command.Reply.out_of_memory)
unfolding set sider.Storage.Store.expire_key find sider.Storage.Strings.set_live
    sider.Storage.Strings.replace can_replace proposed entry_bytes logical_bytes
over_quota = refl

size_of_k : entry_bytes (text "k") expiring.value ≡ some 131
unfolding entry_bytes logical_bytes
size_of_k = refl

small-IsAccounted : IsAccounted small
unfolding entry_bytes logical_bytes
small-IsAccounted = record { counted = ((131, size_of_k), tt); accounted = refl }

allowed : can_replace (text "k") (Value.string (text "new")) small ≡ true
unfolding can_replace proposed entry_bytes logical_bytes find
allowed = refl

remove-IsAccounted_example : Removes (text "k") small
remove-IsAccounted_example = remove-IsAccounted (text "k") small small-IsAccounted

install_entry-IsAccounted_example : Replaces (text "k") (string_entry (text "new") none) small
install_entry-IsAccounted_example =
    install_entry-IsAccounted (text "k") (string_entry (text "new") none) small small-IsAccounted
      allowed

set-Keeps_example : Keeps small (set (text "k") (text "new") plain clock small)
set-Keeps_example = set-Keeps (text "k") (text "new") plain clock small small-IsAccounted

increment-Keeps_example : Keeps small (increment (text "k") (negsuc 0) 50 small)
increment-Keeps_example = increment-Keeps (text "k") (negsuc 0) 50 small small-IsAccounted

del-Keeps_example : Keeps small (del (text "k" ∷ (text "k" ∷ [])) 50 small)
del-Keeps_example = del-Keeps (text "k" ∷ (text "k" ∷ [])) 50 small small-IsAccounted

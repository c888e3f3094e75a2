-- ===== src/Storage/Tests.antt =====
-- Keys, commands and transactions placed on concrete routers.
use sider.Prelude.{false}
use sider.Prelude.{◌≡◌, ◌⊎◌, ◌↔◌, refl, true, [], ◌∷◌, any, All, ◌==◌, ok, err, arith}
use sider.Resp.Frame.{Bytes}
use sider.Command.Types.{Command, keys_of}
use sider.Command.Names.{text}
use sider.Storage.Routing.{
  ShardRouter, cross_shard, route, shard_for, stable_hash, hash_from, hash_byte, hash_tag, split_on,
  select_command, select_keys, select_key, transaction_participants,
}
use sider.Storage.Admission
use sider.Storage.Admission.{World, check, publication, drop, check_iff}
use sider.Storage.Placement.{Places, route-Places, shard_for-tagged}
use sider.Storage.Participants.{participants_complete, Ascending, Owns, transaction_keys}

abbrev four : ShardRouter
four = record { count = 4 }

abbrev tagged : Command
tagged = Command.mget (text "a{t}" ∷ (text "b{t}c" ∷ []))

hashes : stable_hash (text "a") ≡ 0xaf63dc4c8601ec8c
unfolding stable_hash hash_from hash_byte
hashes = refl

same_shard : route four tagged ≡ ok (shard_for four (text "t"))
unfolding route select_command select_keys select_key shard_for stable_hash hash_from hash_tag
    split_on hash_byte
same_shard = refl

crosses : route four (Command.mget (text "a" ∷ (text "b" ∷ []))) ≡ err cross_shard
unfolding route select_command select_keys select_key shard_for stable_hash hash_from hash_tag
    split_on hash_byte
crosses = refl

nested_tag : hash_tag (text "x{{y}z}") ≡ text "{y"
unfolding hash_tag split_on
nested_tag = refl

empty_tag : hash_tag (text "x{}{y}") ≡ text "x{}{y}"
unfolding hash_tag split_on
empty_tag = refl

route-Places_example : Places four (keys_of tagged) (route four tagged)
route-Places_example = route-Places four tagged (omega arith)

participants_complete_example :
    Ascending 0 (transaction_participants four (tagged ∷ []) (text "w" ∷ []))
    × All
        (λ (key : Bytes).
          any
            (λ x. x == shard_for four key)
            (transaction_participants four (tagged ∷ []) (text "w" ∷ []))
          ≡ true)
        (transaction_keys (tagged ∷ []) (text "w" ∷ []))
    × (All
          (Owns four (transaction_keys (tagged ∷ []) (text "w" ∷ [])))
          (transaction_participants four (tagged ∷ []) (text "w" ∷ []))
        ⊎ (transaction_participants four (tagged ∷ []) (text "w" ∷ []) ≡ 0 ∷ []))
participants_complete_example =
    participants_complete four (tagged ∷ []) (text "w" ∷ []) (omega arith)

shard_for-tagged_example : shard_for four (text "a{t}") ≡ shard_for four (text "{t}c")
shard_for-tagged_example = shard_for-tagged four (text "a") [] b't' [] [] (text "c") refl refl refl

abbrev left_once : World
left_once = record { admission = record { accepting = false }; running = []; left = 1 }

check_iff_example : (check left_once.admission ≡ ok tt) ↔ (left_once.left ≡ 0)
unfolding publication drop
check_iff_example = check_iff left_once (
    Admission.then_step (Admission.then_step Admission.here Admission.begins)
      (Admission.abandons publication [] Admission.first))

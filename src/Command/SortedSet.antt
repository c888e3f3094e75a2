-- ===== src/Command/SortedSet.antt =====
-- command/sorted_set.rs, `parse`: the requests of sorted sets, for any reader of scores.
-- The two matches on the name are one: the name selects a request, its arity and what it builds.
use Prim.Native.String.{String}
use sider.Prelude.{
  ℕ, ◌%◌, Bool, true, false, ◌&&◌, not, Option, none, some, List, [], ◌∷◌, length, leb, ◌==◌,
  if◌then◌else◌, Result, ok, err, and_then, ok_or,
}
use sider.Resp.Frame.{Bytes}
use sider.Command.Types.{Command, Score, SortedSetCommand}
use sider.Command.Names.{named, RequestError, wrong_arity, unknown_command, syntax, invalid_float}
use sider.Command.Options.{parse_integer}

-- The first row of a table whose word is the name.
abbrev pub find {ℓ} : {A : Type ℓ} → Bytes → List (String × A) → Option A
find name [] = none
find name ((w, a) ∷ rows) = let rest = find name rows in if named name w then some a else rest

pub data SortedSetName : Type 0 where
  zadd zrem zcard zscore zrange : SortedSetName

abbrev pub sorted_set_names : List (String × SortedSetName)
sorted_set_names =
    ("ZADD", zadd)
    ∷ ("ZREM", zrem)
    ∷ ("ZCARD", zcard)
    ∷ ("ZSCORE", zscore)
    ∷ ("ZRANGE", zrange)
    ∷ []

abbrev pub canonical : SortedSetName → String
canonical zadd = "zadd"
canonical zrem = "zrem"
canonical zcard = "zcard"
canonical zscore = "zscore"
canonical zrange = "zrange"

abbrev pub arity : SortedSetName → ℕ → Bool
arity zadd n = leb 3 n
arity zrem n = leb 2 n
arity zcard n = n == 1
arity zscore n = n == 2
arity zrange n = leb 3 n

-- The loop of ZADD, which reads a score and a member.
abbrev pub scored : (Bytes → Option Score) → List Bytes → Result (List (Score × Bytes)) RequestError
scored score [] = ok []
scored score (s ∷ []) = and_then (ok_or (score s) invalid_float) (λ _. err syntax)
scored score (s ∷ (member ∷ args)) =
    and_then (ok_or (score s) invalid_float)
      (λ value. and_then (scored score args) (λ entries. ok ((value, member) ∷ entries)))

abbrev pub with_scores : List Bytes → Result Bool RequestError
with_scores [] = ok false
with_scores (option ∷ args) =
    if named option "WITHSCORES" && length args == 0 then ok true else err syntax

abbrev pub zrange_of : List Bytes → Result SortedSetCommand RequestError
zrange_of (start ∷ (stop ∷ args)) = and_then (parse_integer start) (λ first.
    and_then (parse_integer stop) (λ last.
      and_then (with_scores args) (λ scores. ok (SortedSetCommand.range first last scores))))
zrange_of _ = err (wrong_arity "zrange")

abbrev pub zscore_of : List Bytes → Result SortedSetCommand RequestError
zscore_of [] = err (wrong_arity "zscore")
zscore_of (member ∷ args) = ok (SortedSetCommand.score member)

abbrev pub sorted_set_operation :
    (Bytes → Option Score) → SortedSetName → List Bytes → Result SortedSetCommand RequestError
sorted_set_operation score zadd args =
    if not (length args % 2 == 0)
    then err syntax
    else and_then (scored score args) (λ entries. ok (SortedSetCommand.add entries))
sorted_set_operation score zrem args = ok (SortedSetCommand.remove args)
sorted_set_operation score zcard args = ok SortedSetCommand.card
sorted_set_operation score zscore args = zscore_of args
sorted_set_operation score zrange args = zrange_of args

abbrev pub keyed_sorted_set :
    (Bytes → Option Score) → SortedSetName → List Bytes → Result Command RequestError
keyed_sorted_set score name [] = err (wrong_arity (canonical name))
keyed_sorted_set score name (key ∷ args) =
    and_then (sorted_set_operation score name args)
      (λ operation. ok (Command.sorted_set key operation))

abbrev pub request :
    (Bytes → Option Score) → List Bytes → Option SortedSetName → Result Command RequestError
request score args none = err unknown_command
request score args (some kind) =
    if not (arity kind (length args))
    then err (wrong_arity (canonical kind))
    else keyed_sorted_set score kind args

unfoldable pub parse : (Bytes → Option Score) → Bytes → List Bytes → Result Command RequestError
parse score name args = request score args (find name sorted_set_names)

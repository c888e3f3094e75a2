-- ===== src/Command/Tests.antt =====
-- Requests parsed from concrete frames, and the theorems on the parsers at concrete inputs.
use sider.Prelude.Int.{pos}
use Prim.Native.String.{String}
use sider.Prelude.{◌≡◌, refl, true, Option, none, some, List, [], ◌∷◌, ok, err, arith}
use sider.Prelude.Int.{negsuc}
use sider.Prelude.Machine.{i64_min, checked_mul_i64, checked_sub_i64}
use sider.Resp.Frame.{Bytes, Frame, Frames, nil, cons}
use sider.Resp.Encoder.{decimal_i64}
use sider.Resp.Number.{parse_signed, split_sign, negative_value, negate, push_digit_i64, push_digit}
use sider.Storage.Memory.{SetCondition, Operation}
use sider.Command.Types.{Command, Score, SetExpiry, ListCommand, SortedSetCommand}
use sider.Command.Reply.{Reply, Replies, empty, more, frame_of, command_resp3}
use sider.Command.Resp3.{Modern, all, found, command_resp3-Modern}
use sider.Command.Names.{text, named, upper, to_ascii_uppercase, syntax, wrong_arity}
use sider.Command.Decimal.{parse_decimal, canonical_digits, parse_decimal-decimal_i64}
use sider.Command.Options.{parse_set_options, read_words, finish_options, word, parse_integer}
use sider.Command.SetTimes.{Timed, parse_set_options-Timed}
use sider.Command.Hello.{parse_hello_auth, version_of, Negotiates, parse_hello_auth-Negotiates}
use sider.Command.Parser.{arguments, parse}
use sider.Command.Accepted.{Parsed, parse-Parsed}

abbrev words : List String → List Bytes
words [] = []
words (w ∷ ws) = text w ∷ words ws

abbrev bulk_frames : List String → Frames
bulk_frames [] = nil
bulk_frames (w ∷ ws) = cons (Frame.bulk (some (text w))) (bulk_frames ws)

abbrev request : List String → Frame
request ws = Frame.array (bulk_frames ws)

abbrev no_score : Bytes → Option Score
no_score bytes = none

sets_for_ten_seconds :
    parse_set_options (words ("nx" ∷ ("EX" ∷ ("10" ∷ ("Get" ∷ [])))))
    ≡ ok (record {
      condition = SetCondition.missing;
      expiry = SetExpiry.after 10000;
      return_previous = true;
    })
unfolding parse_set_options read_words word named to_ascii_uppercase upper finish_options
    parse_integer parse_decimal canonical_digits sider.Resp.Number.parse_integer parse_signed
    split_sign negative_value push_digit_i64 checked_mul_i64 checked_sub_i64 negate
sets_for_ten_seconds = refl

keeps_or_expires : parse_set_options (words ("KEEPTTL" ∷ ("PX" ∷ ("10" ∷ [])))) ≡ err syntax
unfolding parse_set_options read_words word named to_ascii_uppercase upper
keeps_or_expires = refl

pops :
    parse no_score (request ("lPop" ∷ ("k" ∷ [])))
    ≡ ok (Command.list (text "k") (ListCommand.pop true))
unfolding parse named to_ascii_uppercase upper sider.Command.Collections.parse
pops = refl

lacks_a_field : parse no_score (request ("HSET" ∷ ("k" ∷ ("f" ∷ [])))) ≡ err (wrong_arity "hset")
unfolding parse named to_ascii_uppercase upper sider.Command.Collections.parse
lacks_a_field = refl

forgets :
    parse no_score (request ("MEM.EXPIRE" ∷ ("k" ∷ ("m" ∷ ("-5" ∷ [])))))
    ≡ ok (Command.memory (text "k") (Operation.expire (text "m") (negsuc 4)))
unfolding parse named to_ascii_uppercase upper sider.Command.MemoryRequests.parse
    sider.Command.MemoryRequests.request_size sider.Resp.Encoder.decimal
    sider.Resp.Encoder.digits_fuel sider.Command.MemoryRequests.◌then◌
    sider.Command.MemoryRequests.field sider.Command.MemoryRequests.next
    sider.Command.MemoryRequests.lift sider.Command.MemoryRequests.bounded
    sider.Command.MemoryRequests.pure sider.Command.MemoryRequests.read_expire parse_decimal
    canonical_digits sider.Resp.Number.parse_integer parse_signed split_sign negative_value
    push_digit_i64 checked_mul_i64 checked_sub_i64
forgets = refl

minus_zero : parse_decimal (text "-0") ≡ none
unfolding parse_decimal canonical_digits
minus_zero = refl

parse_decimal-decimal_i64_example : parse_decimal (decimal_i64 i64_min) ≡ some i64_min
parse_decimal-decimal_i64_example = parse_decimal-decimal_i64 i64_min (omega arith) (omega arith)

parse_set_options-Timed_example :
    Timed (words ("EX" ∷ ("10" ∷ []))) (parse_set_options (words ("EX" ∷ ("10" ∷ []))))
parse_set_options-Timed_example = parse_set_options-Timed (words ("EX" ∷ ("10" ∷ [])))

parse-Parsed_example :
    Parsed
      (arguments (request ("GET" ∷ ("k" ∷ []))))
      (parse no_score (request ("GET" ∷ ("k" ∷ []))))
parse-Parsed_example = parse-Parsed no_score (request ("GET" ∷ ("k" ∷ [])))

abbrev range_found : Replies
range_found = more (Reply.bulk (some (text "a"))) (more (Reply.bulk (some (text "1"))) empty)

command_resp3-Modern_example : Modern (
    command_resp3
      (frame_of (Reply.array range_found))
      (Command.sorted_set (text "z") (SortedSetCommand.range (pos 0) (negsuc 0) true)))
command_resp3-Modern_example =
    command_resp3-Modern
      (Command.sorted_set (text "z") (SortedSetCommand.range (pos 0) (negsuc 0) true))
      (Reply.array range_found) (found (found all))

abbrev hello : Frame
hello = request ("hello" ∷ ("3" ∷ ("auth" ∷ ("user" ∷ ("secret" ∷ [])))))

negotiates :
    parse_hello_auth hello
    ≡ ok (record { version = some 3; authentication = some (text "user", text "secret") })
unfolding parse_hello_auth version_of named to_ascii_uppercase upper
negotiates = refl

parse_hello_auth-Negotiates_example : Negotiates (arguments hello) (parse_hello_auth hello)
parse_hello_auth-Negotiates_example = parse_hello_auth-Negotiates hello

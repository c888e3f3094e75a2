-- ===== src/Resp/Tests.antt =====
-- Runs of the codec on concrete bytes, and its theorems at concrete inputs.
use sider.Resp.Size.{size_round}
use Prim.Native.String.{String}
use Prim.Native.Char.{code}
use sider.Prelude.{false, ℕ, ◌≡◌, refl, Option, none, some, List, [], ◌∷◌, ◌++◌, arith, Result}
use sider.Prelude.Int.{negsuc}
use sider.Prelude.Machine.{checked_mul_i64, checked_sub_i64}
use sider.Resp.Limits.{default, validate}
use sider.Resp.Frame.{Frame, Frames, nil, cons, ProtocolError, malformed, limit_exceeded, poisoned}
use sider.Resp.Number.{parse_integer, parse_length, push_digit_i64, push_digit}
use sider.Resp.State.{Decoder, State, Outcome, ok, err}
use sider.Resp.Materialize.{materialize, push_frames, push_frame}
use sider.Resp.Header.{
  prefix_step, prefix_byte, start_node, frame_room, is_prefix, is_aggregate, is_blob, is_line_kind,
  finish_line, finish_node, close_arrays, line_node, length_header, child_count, blob_header,
  array_header, open_array, boolean_value,
}
use sider.Resp.Decoder.{
  decode, scan, step, line_step, line_byte, end_line, inside_line, blob_step, skip_payload,
  blob_byte, end_blob, after_payload, blob_node, verbatim_node, finish_scan, finish_frame, fail,
}
use sider.Resp.Encoder.{write, node_count}
use sider.Resp.Written.{Writes, encode-Writes}
use sider.Resp.Size.{encode, encoded_size, add_within, frame_size}
use sider.Resp.Scalar.{validate_scalar}
use sider.Resp.Number.{length_value, parse_signed, split_sign, negative_value}
use sider.Resp.Encoder.{own_bytes, children, line, blob, decimal, decimal_i64, digits_fuel}
use sider.Resp.Size.{
  write_checked, size_loop, text_size, line_size, blob_size, aggregate_size, deeper, children_fit,
  at_depth,
}
use sider.Prelude.Machine.{i64_min}
use sider.Resp.RoundTrip.{parse_length-decimal, parse_integer-decimal_i64}
use sider.Resp.Decode.{decode_in_pieces, decode_buffer, decode_poisoned, Consumes}

abbrev text : String → List ℕ
text String.[] = []
text (String.◌∷◌ c s) = code c ∷ text s

abbrev text_line : String → List ℕ
text_line s = text s ++ (13 ∷ 10 ∷ [])

abbrev fresh : Decoder
fresh = record {
  scanner = record {
    limits = default;
    cursor = 0;
    state = State.prefix;
    nodes = [];
    arrays = [];
    nodes_started = 0;
    pending_nodes = 1;
  };
  previous_len = 0;
  poisoned = false;
}

-- The names that a run of `decode` computes with.
abbrev half_frame : List ℕ
half_frame = text_line "*2" ++ text ":-4"

abbrev run : List ℕ → Decoder → Outcome (Option Frame) × List ℕ
unfolding decode scan step prefix_step prefix_byte start_node frame_room is_prefix is_aggregate
    is_blob is_line_kind finish_line finish_node close_arrays line_node length_header child_count
    blob_header array_header open_array boolean_value line_step line_byte end_line inside_line
    blob_step skip_payload blob_byte end_blob after_payload blob_node verbatim_node finish_scan
    finish_frame fail materialize push_frames push_frame parse_integer parse_length push_digit
    push_digit_i64 validate_scalar
run src d = let (r, rest, d') = decode src d in (r, rest)

runs_array :
    run
      (text_line "*2"
        ++ (text_line ":-42" ++ (text_line "$4" ++ (text_line "a b " ++ text "+tail"))))
      fresh
    ≡ (
      ok (
          some (
            Frame.array
              (cons (Frame.integer (negsuc 41)) (cons (Frame.bulk (some (text "a b "))) nil)))),
      text "+tail",
    )
unfolding run length_value parse_signed split_sign negative_value checked_mul_i64 checked_sub_i64
runs_array = refl

runs_incomplete : run (text_line "*2" ++ text ":-4") fresh ≡ (ok none, text_line "*2" ++ text ":-4")
unfolding run length_value
runs_incomplete = refl

runs_error : run (text_line ":4x") fresh ≡ (err (malformed "invalid integer"), text_line ":4x")
unfolding run parse_signed split_sign negative_value checked_mul_i64 checked_sub_i64
runs_error = refl

encodes :
    encode
      (Frame.array (cons (Frame.integer (negsuc 41)) (cons (Frame.bulk (some (text "hello"))) nil)))
      (text "x")
      default
    ≡ (
      some (Result.ok tt),
      text "x" ++ (text_line "*2" ++ (text_line ":-42" ++ (text_line "$5" ++ text_line "hello"))),
    )
unfolding encode write_checked encoded_size size_loop size_round write own_bytes children line blob
    decimal decimal_i64 digits_fuel validate add_within frame_size node_count text_size line_size
    blob_size aggregate_size deeper children_fit at_depth
encodes = refl

encodes_break :
    encode (Frame.simple (13 ∷ [])) [] default
    ≡ (some (Result.err (sider.Resp.Frame.invalid_frame "simple/error contains CR or LF")), [])
unfolding encode write_checked encoded_size size_loop size_round write own_bytes children line blob
    decimal decimal_i64 digits_fuel validate add_within frame_size node_count text_size line_size
    blob_size aggregate_size deeper children_fit at_depth
encodes_break = refl

waits : (decode half_frame fresh).0 ≡ ok none
unfolding run length_value
waits = refl

decode_in_pieces_example :
    decode (half_frame ++ text_line "2") (decode half_frame fresh).2
    ≡ decode (half_frame ++ text_line "2") fresh
decode_in_pieces_example = decode_in_pieces half_frame (text_line "2") fresh (omega arith) waits

decode_buffer_example :
    Consumes (text_line "+OK") (decode (text_line "+OK") fresh).0 (decode (text_line "+OK") fresh).1
decode_buffer_example = decode_buffer (text_line "+OK") fresh (omega arith)

fails : (decode (text_line ":4x") fresh).0 ≡ err (malformed "invalid integer")
unfolding run parse_signed split_sign negative_value checked_mul_i64 checked_sub_i64
fails = refl

decode_poisoned_example :
    decode (text_line "+OK") (decode (text_line ":4x") fresh).2
    ≡ (err poisoned, text_line "+OK", (decode (text_line ":4x") fresh).2)
decode_poisoned_example =
    decode_poisoned (text_line ":4x") (text_line "+OK") fresh (malformed "invalid integer") fails

parse_length-decimal_example : parse_length (decimal 1048576) ≡ Result.ok (some 1048576)
parse_length-decimal_example = parse_length-decimal 1048576 (omega arith)

parse_integer-decimal_i64_example : parse_integer (decimal_i64 i64_min) ≡ Result.ok i64_min
parse_integer-decimal_i64_example = parse_integer-decimal_i64 i64_min (omega arith) (omega arith)

encode-Writes_example :
    Writes default
      (Frame.bulk (some (text "hello")))
      (text "x")
      (encode (Frame.bulk (some (text "hello"))) (text "x") default)
encode-Writes_example = encode-Writes (Frame.bulk (some (text "hello"))) (text "x") default

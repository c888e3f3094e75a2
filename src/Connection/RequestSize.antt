-- ===== src/Connection/RequestSize.antt =====
-- connection/transaction.rs: `request_bytes` counts the bytes of a request.
use sider.Prelude.{
  ℕ, zero, suc, ◌+◌, ◌^◌, ◌≡◌, ◌≤◌, ◌<◌, refl, ap, ◌∙◌, arith, inl, inr, Bool-cases, some, length,
  length-append, ◌++◌, ltb, [], ◌∷◌, List, lt→ltb, ◌*◌, ◌/◌, ◌%◌,
}
use native.Mathlib.Numerals.{unary_clauses}
use sider.Prelude.Machine.{usize_max, saturating_add}
use sider.Resp.Frame.{Bytes, Frame, Frames, nil, cons, count}
use sider.Resp.Encoder.{digits_fuel, decimal, own_bytes, line, blob, crlf}
use sider.Resp.Spelling.{spelled, spelled_all}
use sider.Connection.Request.{ilog10_fuel, digits, request_fold, request_bytes}

-- The arguments of a request: strings that are there.
abbrev pub strings : List Bytes → Frames
strings [] = nil
strings (value ∷ values) = cons (Frame.bulk (some value)) (strings values)

tenth : (fuel n : ℕ) → n < 10 ^ suc fuel → n / 10 < 10 ^ fuel
tenth fuel n h = let k : n < 10 ^ fuel * 10 = simp unary_clauses at h in omega (arith, k)

length-digits_fuel :
    (fuel n : ℕ) (acc : Bytes)
    → n < 10 ^ suc fuel
    → length (digits_fuel (suc fuel) n acc) ≡ ilog10_fuel (suc fuel) n + 1 + length acc
unfolding digits_fuel ilog10_fuel
length-digits_fuel zero n acc h = rw (lt→ltb n 10 h) (omega arith)
length-digits_fuel (suc fuel) n acc h =
    let more = length-digits_fuel fuel (n / 10) ((n % 10 + b'0') ∷ acc) (tenth (suc fuel) n h) in
    elim (Bool-cases (ltb n 10)) [ inl e ↦ rw e (omega arith) | inr e ↦ rw e (more ∙ omega arith) ]

length-decimal : (n : ℕ) → n < 10 ^ 20 → length (decimal n) ≡ digits n
unfolding decimal digits
length-decimal n h = length-digits_fuel 19 n [] h ∙ omega arith

length-string :
    (value : Bytes) (values : List Bytes)
    → length (spelled_all (strings (value ∷ values)))
      ≡ length (decimal (length value)) + length value + 5 + length (spelled_all (strings values))
unfolding spelled spelled_all own_bytes blob line
length-string value values =
    let number = decimal (length value) in
    let rest = spelled_all (strings values) in
    omega (
      arith,
      length-append (blob b'$' value) rest,
      length-append (line b'$' number) (value ++ crlf),
      length-append number crlf,
      length-append value crlf,
    )

request_fold-spelled :
    (size : ℕ) (values : List Bytes)
    → size + length (spelled_all (strings values)) ≤ usize_max
    → request_fold size (strings values) ≡ size + length (spelled_all (strings values))
unfolding request_fold spelled_all
request_fold-spelled size [] h = omega arith
request_fold-spelled size (value ∷ values) h =
    let all = length-string value values in
    let small : length value < 10 ^ 20 = omega (arith, h, all) in
    let number = length-decimal (length value) small in
    let sum : saturating_add (saturating_add size (length value)) (digits (length value) + 5)
        ≡ size + length value + (digits (length value) + 5) =
      omega (arith, h, all, number) in
    ap (λ (n : ℕ). request_fold n (strings values)) sum
    ∙ request_fold-spelled (size + length value + (digits (length value) + 5)) values
        (omega (arith, h, all, number))
    ∙ omega (arith, all, number)

count-strings : (values : List Bytes) → count (strings values) ≡ length values
count-strings [] = refl
count-strings (value ∷ values) = ap (λ (n : ℕ). suc n) (count-strings values)

length-strings : (values : List Bytes) → length values ≤ length (spelled_all (strings values))
unfolding spelled_all
length-strings [] = omega arith
length-strings (value ∷ values) = omega (arith, length-string value values, length-strings values)

length-array :
    (frames : Frames)
    → length (spelled (Frame.array frames))
      ≡ length (decimal (count frames)) + 3 + length (spelled_all frames)
unfolding spelled own_bytes line
length-array frames =
    let number = decimal (count frames) in
    omega (arith, length-append (line b'*' number) (spelled_all frames), length-append number crlf)

-- The size of a request, an array of strings whose spelling has a length that fits a `usize`, is the
-- length of its spelling.
pub request_bytes-spelled :
    (values : List Bytes)
    → length (spelled (Frame.array (strings values))) ≤ usize_max
    → request_bytes (Frame.array (strings values)) ≡ length (spelled (Frame.array (strings values)))
request_bytes-spelled values h =
    let all = length-array (strings values) in
    let number : length (decimal (count (strings values))) ≡ digits (count (strings values)) =
      length-decimal (count (strings values))
        (omega (arith, h, all, length-strings values, count-strings values)) in
    request_fold-spelled (digits (count (strings values)) + 3) values
      (omega (arith, h, all, number))
    ∙ omega (arith, all, number)

-- ===== src/Connection/Request.antt =====
-- connection/transaction.rs: the size of a request.
use sider.Prelude.{ℕ, suc, ◌+◌, some, length, ltb, if◌then◌else◌}
use sider.Prelude.Machine.{saturating_add}
use sider.Prelude.{zero, ◌/◌}
use sider.Resp.Frame.{Frame, Frames, nil, cons, count}

-- `checked_ilog10().unwrap_or(0)` of a `usize`, which has twenty digits at most.
unfoldable pub ilog10_fuel : ℕ → ℕ → ℕ
ilog10_fuel zero n = 0
ilog10_fuel (suc fuel) n =
    let more = suc (ilog10_fuel fuel (n / 10)) in if ltb n 10 then 0 else more

unfoldable pub digits : ℕ → ℕ
digits value = ilog10_fuel 20 value + 1

unfoldable pub request_fold : ℕ → Frames → ℕ
request_fold size nil = size
request_fold size (cons (Frame.bulk (some value)) arguments) =
    request_fold (saturating_add (saturating_add size (length value)) (digits (length value) + 5))
      arguments
request_fold size (cons _ arguments) = request_fold size arguments

abbrev pub request_bytes : Frame → ℕ
request_bytes (Frame.array arguments) = request_fold (digits (count arguments) + 3) arguments
request_bytes _ = 0

-- ===== src/Resp/Frame.antt =====
-- resp/frame.rs and resp/error.rs: protocol frames and framing errors.
-- A byte is a number below 256, and `Bytes` is the list of them.
use sider.Prelude.{ℕ, suc, Bool, Option, List}
use sider.Prelude.Int.{ℤ}
use Prim.Native.String.{String}
use sider.Resp.Limits.{ConfigError}

abbrev pub Bytes : Type 0
Bytes = List ℕ

-- `Array(None)` is `null_array`, and `Array(Some(children))` is `array children`.
mutual
  pub data Frame : Type 0 where
    simple error : Bytes → Frame
    integer : ℤ → Frame
    bulk : Option Bytes → Frame
    null_array : Frame
    array : Frames → Frame
    null : Frame
    boolean : Bool → Frame
    double big_number blob_error verbatim : Bytes → Frame
    map set push attribute : Frames → Frame

  pub data Frames : Type 0 where
    nil : Frames
    cons : Frame → Frames → Frames

abbrev pub count : Frames → ℕ
count nil = 0
count (cons f fs) = suc (count fs)

abbrev pub append : Frames → Frames → Frames
append nil gs = gs
append (cons f fs) gs = cons f (append fs gs)

pub data ProtocolError : Type 0 where
  malformed limit_exceeded : String → ProtocolError
  buffer_changed poisoned : ProtocolError

pub data EncodeError : Type 0 where
  invalid_frame limit_exceeded : String → EncodeError
  invalid_limits : ConfigError → EncodeError

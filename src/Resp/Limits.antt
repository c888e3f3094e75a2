-- ===== src/Resp/Limits.antt =====
-- resp/limits.rs: the budget of one frame.
use sider.Prelude.{ℕ, ◌*◌, ◌||◌, ltb, ◌==◌, if◌then◌else◌, Result, ok, err}
use Prim.Native.String.{String}

pub record RespLimits : Type 0 where
  pub max_frame_bytes : ℕ
  pub max_bulk_bytes : ℕ
  pub max_line_bytes : ℕ
  pub max_nodes : ℕ
  pub max_depth : ℕ

abbrev pub default : RespLimits
default = record {
  max_frame_bytes = 4 * 1024 * 1024;
  max_bulk_bytes = 1024 * 1024;
  max_line_bytes = 1024;
  max_nodes = 1024;
  max_depth = 16;
}

-- `ConfigError::InvalidRespLimits`, the only variant that this module raises.
pub data ConfigError : Type 0 where
  invalid_resp_limits : String → ConfigError

unfoldable pub validate : RespLimits → Result (Unit {0}) ConfigError
validate l =
    if l.max_frame_bytes == 0
      || (l.max_bulk_bytes == 0
          || (l.max_line_bytes == 0 || (l.max_nodes == 0 || l.max_depth == 0)))
    then err (invalid_resp_limits "all limits must be greater than zero")
    else if ltb l.max_frame_bytes l.max_bulk_bytes
    then err (invalid_resp_limits "max_bulk_bytes cannot exceed max_frame_bytes")
    else if ltb l.max_frame_bytes l.max_line_bytes
    then err (invalid_resp_limits "max_line_bytes cannot exceed max_frame_bytes")
    else if ltb 128 l.max_depth
    then err (invalid_resp_limits "max_depth cannot exceed 128")
    else ok tt

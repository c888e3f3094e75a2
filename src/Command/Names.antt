-- ===== src/Command/Names.antt =====
-- The standard library's `eq_ignore_ascii_case` and `to_ascii_uppercase`, and the errors of
-- command/parser.rs.
use Prim.Native.String.{String}
use Prim.Native.Char.{code}
use sider.Prelude.{ℕ, ◌-◌, Bool, true, false, ◌&&◌, [], ◌∷◌, leb, if◌then◌else◌, bytes_eq}
use sider.Resp.Frame.{Bytes}

abbrev pub text : String → Bytes
text String.[] = []
text (String.◌∷◌ c s) = code c ∷ text s

unfoldable pub upper : ℕ → ℕ
upper b = if leb b'a' b && leb b b'z' then b - 32 else b

unfoldable pub to_ascii_uppercase : Bytes → Bytes
to_ascii_uppercase [] = []
to_ascii_uppercase (b ∷ bs) = upper b ∷ to_ascii_uppercase bs

-- `name.eq_ignore_ascii_case(word)`.
unfoldable pub named : Bytes → String → Bool
named name word = bytes_eq (to_ascii_uppercase name) (to_ascii_uppercase (text word))

pub data RequestError : Type 0 where
  invalid_format unsupported_hello_options unsupported_protocol_version : RequestError
  invalid_protocol_version unknown_command : RequestError
  wrong_arity : String → RequestError
  syntax invalid_integer invalid_float invalid_set_expiry : RequestError
  invalid_expiry memory : String → RequestError

abbrev pub is_fatal : RequestError → Bool
is_fatal invalid_format = true
is_fatal _ = false

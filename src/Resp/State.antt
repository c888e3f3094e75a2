-- ===== src/Resp/State.antt =====
-- resp/decoder.rs: the scanner's state, and the actions on it.
use sider.Prelude.{ℕ, Bool, Option, List, Result}
use sider.Prelude.Int.{ℤ}
use sider.Resp.Limits.{RespLimits}
use sider.Resp.Frame.{ProtocolError}

pub record Payload : Type 0 where
  pub start : ℕ
  pub end : ℕ

pub data Node : Type 0 where
  simple error : Payload → Node
  integer : ℤ → Node
  bulk : Option Payload → Node
  array : Option ℕ → ℕ → Node
  scalar : ℕ → Payload → Node
  null : Node
  boolean : Bool → Node

pub record Line : Type 0 where
  pub kind : ℕ
  pub start : ℕ
  pub payload_start : ℕ
  pub saw_cr : Bool

pub data State : Type 0 where
  prefix : State
  line : Line → State
  bulk : (payload : Payload) (saw_cr : Bool) (kind : ℕ) → State

-- What `scan` works on: the fields of `Decoder` but `previous_len` and `poisoned`, which only
-- `decode` reads and writes.
-- The vectors `nodes` and `arrays` are kept with their last element first.
pub record Scanner : Type 0 where
  pub limits : RespLimits
  pub cursor : ℕ
  pub state : State
  pub nodes : List Node
  pub arrays : List ℕ
  pub nodes_started : ℕ
  pub pending_nodes : ℕ

pub record Decoder : Type 0 where
  pub scanner : Scanner
  pub previous_len : ℕ
  pub poisoned : Bool

-- `stuck` is no outcome of the program: the loop's fuel ran out, or an index was out of bounds.
pub data Outcome {ℓ} (A : Type ℓ) : Type ℓ where
  ok : A → Outcome A
  err : ProtocolError → Outcome A
  stuck : Outcome A

-- A method with `&mut self`: what it wrote before an error stays written.
abbrev pub M {ℓ} : Type ℓ → Type ℓ
M A = Scanner → Outcome A × Scanner

module _ {ℓ κ} {A : Type ℓ} {B : Type κ} where
  abbrev pub continue :
      Outcome A → (A → Scanner → Outcome B × Scanner) → Scanner → Outcome B × Scanner
  continue (ok a) f d = f a d
  continue (err e) f d = (err e, d)
  continue stuck f d = (stuck, d)

  infixl 10 ◌>>=◌
  abbrev pub ◌>>=◌ :
      (Scanner → Outcome A × Scanner)
      → (A → Scanner → Outcome B × Scanner)
      → Scanner
      → Outcome B × Scanner
  ◌>>=◌ m f d = let (r, d') = m d in continue r f d'

infixl 10 ◌>>◌
abbrev pub ◌>>◌ {κ} : {B : Type κ} → M (Unit {0}) → M B → M B
m >> n = m >>= λ _. n

abbrev pub pure {ℓ} : {A : Type ℓ} → A → M A
pure a d = (ok a, d)

abbrev pub raise {ℓ} : {A : Type ℓ} → ProtocolError → M A
raise e d = (err e, d)

abbrev pub get : M Scanner
get d = (ok d, d)

abbrev pub put : Scanner → M (Unit {0})
put d' d = (ok tt, d')

-- `?` on a pure result.
abbrev pub lift {ℓ} : {A : Type ℓ} → Result A ProtocolError → M A
lift (Result.ok a) d = (ok a, d)
lift (Result.err e) d = (err e, d)

abbrev pub ensure : Bool → ProtocolError → M (Unit {0})
ensure Bool.true e d = (ok tt, d)
ensure Bool.false e d = (err e, d)

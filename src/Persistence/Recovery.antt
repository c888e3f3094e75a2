-- ===== src/Persistence/Recovery.antt =====
-- persistence/writer.rs: the loop of recovery over the records of a log, for the profile of version 1
-- records. The replay of mutations into the store is an argument, and `none` is fuel that has run out.
use sider.Prelude.{
  ℕ, zero, suc, ◌+◌, ◌-◌, Bool, true, false, ◌&&◌, Option, none, some, List, [], ◌∷◌, length, ◌==◌,
  not, if◌then◌else◌, option_bind, Result, ok, err, and_then,
}
use sider.Prelude.Machine.{checked_add}
use sider.Resp.Frame.{Bytes}
use sider.Storage.Member.{bytes_lt}
use sider.Storage.Mutation.{Mutation, put, delete, key_of}
use sider.Persistence.Words.{FormatError}
use sider.Persistence.Record.{Limits, Record, snapshot, seal, batch, encode, snapshot_digest}
use sider.Persistence.Reading.{Next, next, end, incomplete_tail, read_record}

-- `AofError`, as far as the loop fails; `refused` is an error of the replay.
pub data RecoverError : Type 0 where
  format : FormatError → RecoverError
  sequence refused : RecoverError

pub record Progress (S : Type 0) : Type 0 where
  pub store : S
  pub sequence : ℕ
  pub sealed : Bool
  pub previous_key : Option Bytes
  pub snapshot_entries : ℕ
  pub digest : ℕ

abbrev pub start : {S : Type 0} → S → ℕ → Progress S
start store base = record {
  store = store;
  sequence = base;
  sealed = false;
  previous_key = none;
  snapshot_entries = 0;
  digest = 0;
}

abbrev pub is_put : Mutation → Bool
is_put (put key value expires_at) = true
is_put (delete key) = false

abbrev pub follows : Option Bytes → Bytes → Bool
follows none key = true
follows (some previous) key = bytes_lt previous key

abbrev pub is_next : Option ℕ → ℕ → Bool
is_next none number = false
is_next (some n) number = n == number

abbrev pub from_format : {A : Type 0} → Result A FormatError → Result A RecoverError
from_format (ok a) = ok a
from_format (err e) = err (format e)

module _ {S : Type 0} (replay : S → List Mutation → Result S RecoverError) (limits : Limits) where
  -- The arms of the loop: every record is taken only in its place.
  unfoldable pub step : ℕ → Progress S → Record → Result (Progress S) RecoverError
  step base p (snapshot mutation) =
      if not p.sealed && is_put mutation
      then (if follows p.previous_key (key_of mutation)
          then and_then (from_format (encode (snapshot mutation) limits)) (λ bytes.
            and_then (replay p.store (mutation ∷ [])) (λ store. ok (record p {
              store = store;
              previous_key = some (key_of mutation);
              snapshot_entries = p.snapshot_entries + 1;
              digest = snapshot_digest p.digest bytes;
            })))
          else err sequence)
      else err sequence
  step base p (seal number entries sum) =
      if not p.sealed && (number == base && (entries == p.snapshot_entries && sum == p.digest))
      then ok (record p { sealed = true })
      else err sequence
  step base p (batch number b) =
      if p.sealed && is_next (checked_add p.sequence 1) number
      then and_then (replay p.store b.mutations)
          (λ store. ok (record p { store = store; sequence = number }))
      else err sequence

  abbrev pub Scanned : Type 0
  Scanned = Option (Result (Progress S × Bool × ℕ) RecoverError)

  abbrev pub taken : (Progress S → Scanned) → Result (Progress S) RecoverError → Scanned
  taken again (err e) = some (err e)
  taken again (ok q) = again q

  -- One round of the loop; `again` are the rounds that follow.
  abbrev pub scan_next :
      ℕ
      → (Bytes → Progress S → ℕ → Scanned)
      → Bytes
      → Progress S
      → ℕ
      → Result (Next × Bytes) FormatError
      → Scanned
  scan_next base again bytes p valid (err e) = some (err (format e))
  scan_next base again bytes p valid (ok (end, rest)) = some (ok (p, false, valid))
  scan_next base again bytes p valid (ok (incomplete_tail, rest)) = some (ok (p, true, valid))
  scan_next base again bytes p valid (ok (next r, rest)) =
      taken (λ q. again rest q (valid + (length bytes - length rest))) (step base p r)

  -- What was recovered, whether the tail is incomplete, and the bytes that are valid.
  unfoldable pub scan : ℕ → ℕ → Bytes → Progress S → ℕ → Scanned
  scan base zero bytes p valid = none
  scan base (suc fuel) bytes p valid =
      scan_next base (scan base fuel) bytes p valid (read_record bytes limits)

  -- A log without its seal is refused.
  abbrev pub sealed_only :
      Result (Progress S × Bool × ℕ) RecoverError → Result (Progress S × Bool × ℕ) RecoverError
  sealed_only (err e) = err e
  sealed_only (ok (p, incomplete, valid)) =
      if not p.sealed then err sequence else ok (p, incomplete, valid)

  -- From the first record, `valid` being the bytes of the header.
  unfoldable pub recover : ℕ → S → Bytes → ℕ → Scanned
  recover base store bytes valid =
      option_bind (scan base (length bytes + 1) bytes (start store base) valid)
        (λ r. some (sealed_only r))

  -- The records one after the other.
  unfoldable pub run : ℕ → Progress S → List Record → Result (Progress S) RecoverError
  run base p [] = ok p
  run base p (r ∷ rs) = and_then (step base p r) (λ q. run base q rs)

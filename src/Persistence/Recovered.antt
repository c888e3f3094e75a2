-- ===== src/Persistence/Recovered.antt =====
-- persistence/writer.rs: a log whose last record is torn is recovered up to it.
use sider.Prelude.{
  ℕ, zero, suc, ◌+◌, ◌-◌, ◌≤◌, ◌<◌, ◌≡◌, refl, ap, sym, ◌∙◌, Bool, true, false, some, List, [], ◌∷◌,
  ◌++◌, length, length-append, append_assoc, take, ◌==◌, not, if◌then◌else◌, option_bind, Result,
  ok, err, and_then, arith,
}
use sider.Resp.Frame.{Bytes}
use sider.Storage.Mutation.{Mutation}
use sider.Persistence.Record.{Limits, Record, encode}
use sider.Persistence.Reading.{end, incomplete_tail, read_record}
use sider.Persistence.Records.{IsRecord}
use sider.Persistence.Framing.{read_record-encode, read_record-torn, encode-nonempty}
use sider.Persistence.Recovery.{
  RecoverError, Progress, start, step, Scanned, scan, scan_next, taken, sealed_only, recover, run,
}

-- The bytes of a log: each record as `encode` writes it.
pub data Logs (limits : Limits) : List Record → Bytes → Type 0 where
  nothing : Logs limits [] []
  logged :
      {r : Record} {rs : List Record} {out log whole : Bytes}
      → IsRecord r
      → encode r limits ≡ ok out
      → Logs limits rs log
      → out ++ log ≡ whole
      → Logs limits (r ∷ rs) whole

length-Logs :
    {limits : Limits} {rs : List Record} {log : Bytes} → Logs limits rs log → length rs ≤ length log
length-Logs nothing = omega arith
length-Logs (logged {r = r} {out = out} {log = log} is wrote logs eq) =
    omega
      (arith, length-Logs logs, encode-nonempty r _ out wrote, ap length eq, length-append out log)

module _ {S : Type 0} (replay : S → List Mutation → Result S RecoverError) (limits : Limits)
    (base : ℕ) where
  -- What the loop makes of whole records and a torn one.
  abbrev ended : ℕ → ℕ → Result (Progress S) RecoverError → Scanned replay limits
  ended n valid r = some (and_then r (λ q. ok (q, not (n == 0), valid)))

  scan-torn :
      (last : Record) (out : Bytes) (n : ℕ)
      → encode last limits ≡ ok out
      → n < length out
      → (fuel : ℕ) (p : Progress S) (valid : ℕ) (rs : List Record) (log : Bytes)
      → Logs limits rs log
      → length rs < fuel
      → scan replay limits base fuel (log ++ take n out) p valid
        ≡ ended n (valid + length log) (run replay limits base p rs)
  unfolding scan run
  scan-torn last out n wrote short zero p valid rs log logs enough = absurd (omega (arith, enough))
  scan-torn last out n wrote short (suc fuel) p valid [] log nothing enough =
      ap (scan_next replay limits base (scan replay limits base fuel) (take n out) p valid)
        (read_record-torn last limits out n wrote short)
      ∙ (by_end (n == 0) ∙ ap (λ (v : ℕ). ended n v (ok p)) (omega arith))
    where
      by_end :
          (b : Bool)
          → scan_next replay limits base
              (scan replay limits base fuel)
              (take n out)
              p
              valid
              (ok (if b then end else incomplete_tail, []))
            ≡ some (ok (p, not b, valid))
      by_end true = refl
      by_end false = refl
  scan-torn last out n wrote short (suc fuel) p valid (r ∷ rs) log
        (logged {out = o} {log = later} is one logs eq) enough =
      let tail = take n out in
      let whole : log ++ tail ≡ o ++ (later ++ tail) =
        ap (λ (b : Bytes). b ++ tail) (sym eq) ∙ append_assoc o later tail in
      let gone : length (log ++ tail) - length (later ++ tail) ≡ length o =
        omega (arith, ap length whole, length-append o (later ++ tail)) in
      let more : length log ≡ length o + length later =
        ap length (sym eq) ∙ length-append o later in
      ap (scan_next replay limits base (scan replay limits base fuel) (log ++ tail) p valid) (
        ap (λ (b : Bytes). read_record b limits) whole
        ∙ read_record-encode r limits o (later ++ tail) is one)
      ∙ stepped
          (λ q v. scan-torn last out n wrote short fuel q v rs later logs (omega (arith, enough)))
          (valid + (length (log ++ tail) - length (later ++ tail))) (step replay limits base p r)
          (omega (arith, gone, more))
    where
      stepped :
          ((q : Progress S) (v : ℕ)
            → scan replay limits base fuel (later ++ take n out) q v
              ≡ ended n (v + length later) (run replay limits base q rs))
          → (v : ℕ) (s : Result (Progress S) RecoverError) → v + length later ≡ valid + length log
          → taken replay limits (λ q. scan replay limits base fuel (later ++ take n out) q v) s
            ≡ ended n (valid + length log) (and_then s (λ q. run replay limits base q rs))
      stepped again v (err e) sum = refl
      stepped again v (ok q) sum =
          again q v ∙ ap (λ (k : ℕ). ended n k (run replay limits base q rs)) sum

  -- A log of whole records, of which the last was written only in part or not at all, is recovered to
  -- what the whole records make of the store, in their order; nothing of the torn record is applied, the
  -- tail is incomplete exactly when some of it was written, and the valid bytes are those of the whole
  -- records. Where a record is out of its place or its replay fails, so does the recovery.
  pub recover-torn :
      (last : Record) (out : Bytes) (n : ℕ) (store : S) (valid : ℕ) (rs : List Record) (log : Bytes)
      → encode last limits ≡ ok out
      → n < length out
      → Logs limits rs log
      → recover replay limits base store (log ++ take n out) valid
        ≡ some (
            sealed_only replay limits (
              and_then
                (run replay limits base (start store base) rs)
                (λ q. ok (q, not (n == 0), valid + length log))))
  unfolding recover
  recover-torn last out n store valid rs log wrote short logs =
      ap (λ (s : Scanned replay limits). option_bind s (λ r. some (sealed_only replay limits r)))
        (scan-torn last out n wrote short (length (log ++ take n out) + 1) (start store base) valid
          rs log logs (omega (arith, length-Logs logs, length-append log (take n out))))

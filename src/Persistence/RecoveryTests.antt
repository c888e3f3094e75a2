-- ===== src/Persistence/RecoveryTests.antt =====
-- The recovery of a small log, and its theorems at concrete inputs. The store keeps the mutations.
use sider.Prelude.{
  ◌≡◌, refl, true, none, List, [], ◌∷◌, ◌++◌, ok, some, arith, take, not, ◌==◌, length, and_then,
  ◌+◌,
}
use sider.Resp.Frame.{Bytes}
use sider.Command.Names.{text}
use sider.Storage.Mutation.{Mutation, MutationOrigin, delete}
use sider.Prelude.{Result}
use sider.Persistence.Words.{le}
use sider.Persistence.Record.{
  Limits, Record, seal, batch, encode, record_size, fold_size, mutation_size, encode_body,
  encode_mutations, encode_mutation, framed,
}
use sider.Persistence.Recovery.{RecoverError, Progress, start, step, run, recover, sealed_only}
use sider.Persistence.Recovered.{Logs, nothing, logged, recover-torn}
use sider.Persistence.Order.{History, run-History}

abbrev limits : Limits
limits = record { max_record = 1000; max_mutations = 10 }

abbrev keep : List Mutation → List Mutation → Result (List Mutation) RecoverError
keep store mutations = ok (store ++ mutations)

abbrev empty_seal : Record
empty_seal = seal 5 0 0

abbrev removal : Record
removal = batch 6 (record { origin = MutationOrigin.client; mutations = delete (text "k") ∷ [] })

abbrev seal_body : Bytes
seal_body = 2 ∷ (le 8 5 ++ (le 8 0 ++ le 4 0))

abbrev removal_body : Bytes
removal_body = 3 ∷ (le 8 6 ++ (1 ∷ (le 4 1 ++ (2 ∷ (le 4 1 ++ text "k")))))

seal_encoded : encode empty_seal limits ≡ ok (framed 21 seal_body)
unfolding encode record_size encode_body le
seal_encoded = refl

removal_encoded : encode removal limits ≡ ok (framed 20 removal_body)
unfolding encode record_size fold_size mutation_size encode_body encode_mutations encode_mutation le
removal_encoded = refl

one_record : Logs limits (empty_seal ∷ []) (framed 21 seal_body)
unfolding le
one_record = logged (omega arith, omega arith, omega arith) seal_encoded nothing refl

recover-torn_example :
    recover keep limits 5 [] (framed 21 seal_body ++ take 7 (framed 20 removal_body)) 32
    ≡ some (
        sealed_only keep limits (
          and_then
            (run keep limits 5 (start [] 5) (empty_seal ∷ []))
            (λ q. ok (q, not (7 == 0), 32 + length (framed 21 seal_body)))))
unfolding le
recover-torn_example =
    recover-torn keep limits 5 removal (framed 20 removal_body) 7 [] 32 (empty_seal ∷ [])
      (framed 21 seal_body) removal_encoded (omega arith) one_record

abbrev recovered : Progress (List Mutation)
recovered = record {
  store = delete (text "k") ∷ [];
  sequence = 6;
  sealed = true;
  previous_key = none;
  snapshot_entries = 0;
  digest = 0;
}

runs : run keep limits 5 (start [] 5) (empty_seal ∷ (removal ∷ [])) ≡ ok recovered
unfolding run step
runs = refl

run-History_example : History keep limits 5 none (empty_seal ∷ (removal ∷ [])) 6
run-History_example = run-History keep limits 5 [] recovered (empty_seal ∷ (removal ∷ [])) runs refl

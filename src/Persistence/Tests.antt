-- ===== src/Persistence/Tests.antt =====
-- A record, a header and a layout at work, and the theorems on them at concrete inputs.
use sider.Prelude.{◌-◌}
use sider.Prelude.{◌^◌}
use sider.Prelude.{◌≡◌, refl, some, [], ◌∷◌, ◌++◌, ok, arith, take}
use sider.Prelude.Int.{negsuc}
use sider.Resp.Frame.{Bytes}
use sider.Command.Names.{text}
use sider.Storage.Value.{Value}
use sider.Storage.Mutation.{MutationOrigin, put, delete}
use sider.Storage.Routing
use sider.Replication.Runtime.{Role}
use sider.Persistence.Words.{le}
use sider.Persistence.Record.{
  Limits, Record, batch, encode, checksum, checksum_from, table, record_size, fold_size,
  mutation_size, value_size, blob_size, encode_body, encode_mutations, encode_mutation,
  written_value, written_all, framed,
}
use sider.Persistence.Reading.{read_record, next, incomplete_tail}
use sider.Persistence.Records.{IsRecord}
use sider.Persistence.Elements.{IsSorted}
use sider.Persistence.Framing.{read_record-encode, read_record-torn}
use sider.Persistence.Layout.{DurableLayout, ReplicationMetadata, validate}
use sider.Persistence.Header.{
  write_header_with_replication, read_header_with_layout, written_header,
}
use sider.Persistence.HeaderTrip.{read_header-write}
use sider.Persistence.Quotas.{shared, shared_all}

abbrev limits : Limits
limits = record { max_record = 1000; max_mutations = 10 }

abbrev two : Record
two = batch 42 (record {
  origin = MutationOrigin.client;
  mutations =
      put (text "s") (Value.set (text "a" ∷ (text "b" ∷ []))) (some (negsuc 0))
      ∷ (delete (text "k") ∷ []);
})

-- The check value of CRC-32/ISO-HDLC.
check_value : checksum (text "123456789") ≡ 0xcbf43926
unfolding checksum checksum_from table
check_value = refl

abbrev two_body : Bytes
two_body =
    3
    ∷ (le 8 42
        ++ (1
            ∷ (le 4 2
                ++ (5
                      ∷ (le 4 1
                          ++ (text "s"
                              ++ (le 4 2
                                  ++ (le 4 1
                                      ++ (text "a"
                                          ++ (le 4 1 ++ (text "b" ++ (1 ∷ le 8 (2 ^ 64 - 1)))))))))
                    ++ (2 ∷ (le 4 1 ++ text "k"))))))

two_encoded : encode two limits ≡ ok (framed 49 two_body)
unfolding encode record_size fold_size mutation_size value_size blob_size encode_body
    encode_mutations encode_mutation written_value written_all le
two_encoded = refl

two-IsRecord : IsRecord two
unfolding IsSorted
two-IsRecord = (omega arith, ((((refl, tt), (tt, tt)), omega arith), (tt, tt)))

read_record-encode_example :
    read_record (framed 49 two_body ++ text "more") limits ≡ ok (next two, text "more")
read_record-encode_example =
    read_record-encode two limits (framed 49 two_body) (text "more") two-IsRecord two_encoded

read_record-torn_example :
    read_record (take 30 (framed 49 two_body)) limits ≡ ok (incomplete_tail, [])
unfolding le
read_record-torn_example =
    read_record-torn two limits (framed 49 two_body) 30 two_encoded (omega arith)

abbrev four : DurableLayout
four = record { shard_count = 4; routing = 1 }

abbrev metadata : ReplicationMetadata
metadata = record { role = Role.replica; epoch = text "0123456789abcdef" }

four_valid : validate four ≡ ok tt
unfolding Routing.new
four_valid = refl

header_written :
    write_header_with_replication 7 four (some metadata)
    ≡ ok (written_header 7 four (some metadata))
unfolding write_header_with_replication Routing.new
header_written = refl

read_header-write_example :
    read_header_with_layout (written_header 7 four (some metadata) ++ text "more")
    ≡ ok (
      record {
        sequence = 7;
        layout = four;
        format_version = 3;
        bytes = 52;
        replication = some metadata;
      },
      text "more",
    )
read_header-write_example =
    read_header-write 7 four (some metadata) (written_header 7 four (some metadata)) (text "more")
      (omega arith, omega arith, omega arith) refl header_written

shared_all_example : shared four 1002 4 ≡ ok 1002
shared_all_example = shared_all four 1002 four_valid (omega arith) (omega arith)

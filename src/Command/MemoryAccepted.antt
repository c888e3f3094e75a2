-- ===== src/Command/MemoryAccepted.antt =====
-- command/memory.rs: what a parsed memory request can be.
use sider.Prelude.{
  bytes_eq, ℕ, zero, suc, Bool, false, not, Option, none, some, List, [], ◌∷◌, length, refl, ◌≡◌,
  Result, ok, err, and_then, if◌then◌else◌,
}
use sider.Prelude.Int.{ℤ, pos, negsuc}
use sider.Resp.Frame.{Bytes}
use sider.Storage.Memory.{Operation, Scalar}
use sider.Storage.Member.{MemoryError, validate_member}
use sider.Command.Decimal.{parse_decimal}
use sider.Command.Types.{Command}
use sider.Command.Names.{named, is_fatal, RequestError, memory, wrong_arity}
use sider.Command.MemoryRequests
use sider.Command.MemoryRequests.{
  MemoryName, mem_create, mem_info, mem_put, mem_get, mem_del, mem_pttl, mem_expire, mem_persist,
  mem_search, Reader, ◌then◌, pure, lift, next, left, require, field, bounded, unsigned, count,
  count_from, at_most, identity, scalar, boolean_of, put_once, read_metadata, read_provenance,
  read_vector, ttl, ttl_of, condition, valid, read_create, read_put, read_search, read_id,
  read_expire, read_operation, read_command, argument_error, limit_error, vector_error, ttl_error,
  arity, canonical,
}
use sider.Command.Mild.{
  Answers, accepted, refused, Mild, fine, harmless, and_then-Mild, if-Mild, if-Answers, ok_or-Mild,
}

record MildReader {A : Type 0} (m : Reader A) : Type 0 where
  run : (args : List Bytes) → Mild (m args)

then-Mild :
    {A B : Type 0} {m : Reader A} {f : A → Reader B}
    → MildReader m
    → ((a : A) → MildReader (f a))
    → MildReader (m then f)
unfolding ◌then◌
then-Mild h k = record { run = λ args. and_then-Mild (h.run args) (λ p. (k p.0).run p.1) }

pure-Mild : {A : Type 0} (a : A) → MildReader (pure a)
unfolding pure
pure-Mild a = record { run = λ args. fine }

lift-Mild : {A : Type 0} {r : Result A RequestError} → Mild r → MildReader (lift r)
unfolding lift
lift-Mild (fine {a}) = record { run = λ args. fine }
lift-Mild (harmless h) = record { run = λ args. harmless h }

next-Mild : (kind : MemoryName) → MildReader (next kind)
unfolding next
next-Mild kind = record { run = first }
  where
    first : (args : List Bytes) → Mild (next kind args)
    first [] = harmless refl
    first (x ∷ xs) = fine

left-Mild : MildReader left
unfolding left
left-Mild = record { run = λ args. fine }

require-Mild : (test : Bool) (e : RequestError) → is_fatal e ≡ false → MildReader (require test e)
unfolding require
require-Mild test e h = lift-Mild (if-Mild test fine (harmless h))

bounded-Mild : (value : Bytes) (low high : ℕ) → Mild (bounded value low high)
unfolding bounded
bounded-Mild value low high = if-Mild _ fine (harmless refl)

field-Mild : (kind : MemoryName) (low high : ℕ) → MildReader (field kind low high)
unfolding field
field-Mild kind low high =
    then-Mild (next-Mild kind)
      (λ value. then-Mild (lift-Mild (bounded-Mild value low high)) (λ _. pure-Mild _))

unsigned-Mild : (raw : Bytes) → Mild (unsigned raw)
unfolding unsigned
unsigned-Mild raw = if-Mild _ fine (harmless refl)

at_most-Mild : (maximum : ℕ) (o : Option ℕ) → Mild (at_most maximum o)
at_most-Mild maximum none = harmless refl
at_most-Mild maximum (some value) = if-Mild _ fine (harmless refl)

count_from-Mild : (maximum value : ℕ) (raw : Bytes) → Mild (count_from maximum value raw)
count_from-Mild maximum value [] = fine
count_from-Mild maximum value (d ∷ raw) =
    and_then-Mild (at_most-Mild maximum _) (λ n. count_from-Mild maximum n raw)

count-Mild : (raw : Bytes) (maximum : ℕ) → Mild (count raw maximum)
unfolding count
count-Mild raw maximum = and_then-Mild (unsigned-Mild raw) (λ _. count_from-Mild maximum 0 raw)

identity-Mild : (kind : MemoryName) (dimension : ℕ) → MildReader (identity kind dimension)
unfolding identity
identity-Mild kind dimension = then-Mild (field-Mild kind 1 256) (λ a.
    then-Mild (field-Mild kind 1 256) (λ b.
      then-Mild (field-Mild kind 1 256)
        (λ c. then-Mild (field-Mild kind 1 256) (λ d. pure-Mild _))))

boolean_of-Mild : (raw : Bytes) → Mild (boolean_of raw)
boolean_of-Mild raw =
    if-Mild (bytes_eq raw (b'0' ∷ [])) fine
      (if-Mild (bytes_eq raw (b'1' ∷ [])) fine (harmless refl))

scalar-Mild :
    (unknown : RequestError) (kind raw : Bytes)
    → is_fatal unknown ≡ false
    → Mild (scalar unknown kind raw)
unfolding scalar
scalar-Mild unknown kind raw h =
    if-Mild (named kind "BYTES") (and_then-Mild (bounded-Mild raw 0 4096) (λ _. fine)) (
      if-Mild (named kind "I64")
        (and_then-Mild (ok_or-Mild (parse_decimal raw) argument_error refl) (λ v. fine))
        (if-Mild (named kind "BOOL") (boolean_of-Mild raw) (harmless h)))

put_once-Mild :
    {A : Type 0} (key : Bytes) (value : A) (entries : List (Bytes × A))
    → Mild (put_once key value entries)
put_once-Mild key value entries = if-Mild _ (harmless refl) fine

read_metadata-Mild :
    (kind : MemoryName) (unknown : RequestError) (n : ℕ) (entries : List (Bytes × Scalar))
    → is_fatal unknown ≡ false
    → MildReader (read_metadata kind unknown n entries)
unfolding read_metadata
read_metadata-Mild kind unknown zero entries h = pure-Mild _
read_metadata-Mild kind unknown (suc n) entries h = then-Mild (field-Mild kind 1 64) (λ key.
    then-Mild (next-Mild kind) (λ scalar_type. then-Mild (next-Mild kind) (λ raw.
      then-Mild (lift-Mild (scalar-Mild unknown scalar_type raw h)) (λ value.
        then-Mild (lift-Mild (put_once-Mild key value entries))
          (λ more. read_metadata-Mild kind unknown n more h)))))

read_provenance-Mild :
    (kind : MemoryName) (n : ℕ) (entries : List (Bytes × Bytes))
    → MildReader (read_provenance kind n entries)
unfolding read_provenance
read_provenance-Mild kind zero entries = pure-Mild _
read_provenance-Mild kind (suc n) entries = then-Mild (field-Mild kind 1 64) (λ key.
    then-Mild (field-Mild kind 0 4096) (λ value.
      then-Mild (lift-Mild (put_once-Mild key value entries))
        (λ more. read_provenance-Mild kind n more)))

read_vector-Mild : (kind : MemoryName) → MildReader (read_vector kind)
unfolding read_vector
read_vector-Mild kind = then-Mild (next-Mild kind) (λ vector.
    then-Mild (require-Mild _ vector_error refl) (λ _.
      then-Mild (lift-Mild (bounded-Mild vector 4 16384))
        (λ _. then-Mild (require-Mild _ (memory _) refl) (λ _. pure-Mild _))))

ttl_of-Mild : (o : Option ℤ) → Mild (ttl_of o)
ttl_of-Mild none = harmless refl
ttl_of-Mild (some (pos zero)) = harmless refl
ttl_of-Mild (some (pos (suc n))) = fine
ttl_of-Mild (some (negsuc zero)) = fine
ttl_of-Mild (some (negsuc (suc n))) = harmless refl

ttl-Mild : (raw : Bytes) → Mild (ttl raw)
unfolding ttl
ttl-Mild raw = if-Mild _ fine (ttl_of-Mild _)

condition-Mild : (raw : Bytes) → Mild (condition raw)
unfolding condition
condition-Mild raw =
    if-Mild (named raw "UPSERT") fine
      (if-Mild (named raw "NX") fine (if-Mild (named raw "XX") fine (harmless refl)))

valid-Mild : {A : Type 0} (r : Result A MemoryError) → Mild (valid r)
valid-Mild (ok a) = fine
valid-Mild (err e) = harmless refl

read_create-Mild : MildReader read_create
unfolding read_create
read_create-Mild = then-Mild (next-Mild mem_create) (λ version.
    then-Mild (lift-Mild (unsigned-Mild version)) (λ _.
      then-Mild (require-Mild _ (memory _) refl) (λ _. then-Mild (next-Mild mem_create) (λ raw.
        then-Mild (lift-Mild (count-Mild raw 4096)) (λ dimension.
          then-Mild (require-Mild _ limit_error refl) (λ _.
            then-Mild (next-Mild mem_create) (λ metric.
              then-Mild (require-Mild _ (memory _) refl)
                (λ _. then-Mild (identity-Mild mem_create dimension) (λ d. pure-Mild _)))))))))

read_put-Mild : MildReader read_put
unfolding read_put
read_put-Mild = then-Mild (field-Mild mem_put 1 256) (λ id.
    then-Mild (field-Mild mem_put 0 256) (λ namespace.
      then-Mild (field-Mild mem_put 0 65536) (λ content.
        then-Mild (identity-Mild mem_put 1) (λ unsized.
          then-Mild (read_vector-Mild mem_put) (λ vector. then-Mild (next-Mild mem_put) (λ raw_ttl.
            then-Mild (lift-Mild (ttl-Mild raw_ttl)) (λ time.
              then-Mild (next-Mild mem_put) (λ raw_condition.
                then-Mild (lift-Mild (condition-Mild raw_condition)) (λ existence.
                  then-Mild (next-Mild mem_put) (λ fields.
                    then-Mild (lift-Mild (count-Mild fields 32)) (λ n. then-Mild left-Mild (λ rest.
                      then-Mild (require-Mild _ (wrong_arity _) refl) (λ _.
                        then-Mild (read_metadata-Mild mem_put argument_error n [] refl) (λ metadata.
                          then-Mild (next-Mild mem_put) (λ sources.
                            then-Mild (lift-Mild (count-Mild sources 16)) (λ m.
                              then-Mild left-Mild (λ more.
                                then-Mild (require-Mild _ (wrong_arity _) refl) (λ _.
                                  then-Mild (read_provenance-Mild mem_put m []) (λ provenance.
                                    then-Mild (lift-Mild (valid-Mild (validate_member _ _)))
                                      (λ _. pure-Mild _))))))))))))))))))))

read_search-Mild : MildReader read_search
unfolding read_search
read_search-Mild = then-Mild (identity-Mild mem_search 1) (λ unsized.
    then-Mild (read_vector-Mild mem_search) (λ vector. then-Mild (next-Mild mem_search) (λ raw.
      then-Mild (lift-Mild (count-Mild raw _)) (λ k.
        then-Mild (require-Mild _ (memory _) refl) (λ _.
          then-Mild (field-Mild mem_search 0 256) (λ namespace.
            then-Mild (next-Mild mem_search) (λ fields.
              then-Mild (lift-Mild (count-Mild fields 32)) (λ n. then-Mild left-Mild (λ rest.
                then-Mild (require-Mild _ (wrong_arity _) refl) (λ _.
                  then-Mild
                    (read_metadata-Mild mem_search (memory "ERR unsupported memory filter") n []
                      refl)
                    (λ metadata. pure-Mild _)))))))))))

read_expire-Mild : MildReader read_expire
unfolding read_expire
read_expire-Mild = then-Mild (field-Mild mem_expire 1 256) (λ id.
    then-Mild (next-Mild mem_expire)
      (λ raw. then-Mild (lift-Mild (ok_or-Mild _ ttl_error refl)) (λ ms. pure-Mild _)))

read_id-Mild : (kind : MemoryName) (make : Bytes → Operation) → MildReader (read_id kind make)
unfolding read_id
read_id-Mild kind make = then-Mild (field-Mild kind 1 256) (λ id. pure-Mild _)

read_operation-Mild : (kind : MemoryName) → MildReader (read_operation kind)
read_operation-Mild mem_create = read_create-Mild
read_operation-Mild mem_info = pure-Mild _
read_operation-Mild mem_put = read_put-Mild
read_operation-Mild mem_get = read_id-Mild mem_get Operation.get
read_operation-Mild mem_del = read_id-Mild mem_del Operation.delete
read_operation-Mild mem_pttl = read_id-Mild mem_pttl Operation.pttl
read_operation-Mild mem_expire = read_expire-Mild
read_operation-Mild mem_persist = read_id-Mild mem_persist Operation.persist
read_operation-Mild mem_search = read_search-Mild

memory-Answers :
    (key : Bytes) (args : List Bytes) (kind : MemoryName) (b : Result (Unit {0}) RequestError)
    → Mild b
    → Answers (key ∷ args) (
        and_then
          ((lift b
              then (λ _. pure key)
              then (λ k. read_operation kind then (λ o. pure (Command.memory k o))))
            args)
          (λ p. ok p.0))
unfolding ◌then◌ lift pure
memory-Answers key args kind (err e) (harmless h) = refused h
memory-Answers key args kind (ok a) m =
    with_operation (read_operation kind args) ((read_operation-Mild kind).run args)
  where
    with_operation :
        (r : Result (Operation × List Bytes) RequestError)
        → Mild r
        → Answers
            (key ∷ args)
            (and_then (and_then r (λ p. pure (Command.memory key p.0) p.1)) (λ p. ok p.0))
    with_operation (ok p) m = accepted ((0, refl), tt)
    with_operation (err e) (harmless h) = refused h

keyed-Answers :
    (kind : MemoryName) (args : List Bytes)
    → Answers args (and_then (read_command kind args) (λ p. ok p.0))
unfolding field next ◌then◌
keyed-Answers kind [] = refused refl
keyed-Answers kind (key ∷ args) =
    memory-Answers key args kind (bounded key 1 256) (bounded-Mild key 1 256)

-- A memory request is refused with an error that keeps the connection, or its key is an argument.
pub memory_parse-Answers :
    (kind : MemoryName) (raw : Bytes) (args : List Bytes)
    → Answers args (MemoryRequests.parse kind raw args)
unfolding MemoryRequests.parse
memory_parse-Answers kind raw args =
    if-Answers _ (refused refl)
      (if-Answers (not (arity kind (length args))) (refused refl) (keyed-Answers kind args))

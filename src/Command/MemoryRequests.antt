-- ===== src/Command/MemoryRequests.antt =====
-- command/memory.rs: the requests of the memory lifecycle.
-- A request reads its arguments one after the other. The arity has been checked, so that
-- `args.next().unwrap()` finds an argument; a reading past the end is a wrong arity here.
use Prim.Native.String.{String}
use sider.Prelude.{
  ℕ, zero, suc, ◌+◌, ◌-◌, ◌*◌, ◌/◌, ◌%◌, Bool, true, false, ◌&&◌, ◌||◌, not, Option, none, some,
  List, [], ◌∷◌, length, leb, ltb, ◌==◌, if◌then◌else◌, Result, ok, err, and_then, ok_or, bytes_eq,
  all,
}
use sider.Prelude.Int.{ℤ, pos, negsuc}
use sider.Prelude.Machine.{usize_max, saturating_add}
use sider.Resp.Frame.{Bytes}
use sider.Resp.Number.{is_digit, push_digit}
use sider.Resp.Encoder.{decimal}
use sider.Storage.Memory.{Descriptor, Member, Operation, Scalar, SetCondition, Ttl}
use sider.Storage.Member.{within, coordinates, any_not_finite, validate_member, insert, MemoryError}
use sider.Command.Names.{named, RequestError, memory, wrong_arity}
use sider.Command.Decimal.{parse_decimal}
use sider.Command.Types.{Command}

abbrev pub argument_error : RequestError
argument_error = memory "ERR invalid memory argument"

abbrev pub limit_error : RequestError
limit_error = memory "ERR memory limit exceeded"

abbrev pub vector_error : RequestError
vector_error = memory "ERR memory vector length mismatch"

abbrev pub ttl_error : RequestError
ttl_error = memory "ERR invalid memory ttl"

pub data MemoryName : Type 0 where
  mem_create mem_info mem_put mem_get mem_del mem_pttl mem_expire mem_persist mem_search :
      MemoryName

abbrev pub canonical : MemoryName → String
canonical mem_create = "mem.create"
canonical mem_info = "mem.info"
canonical mem_put = "mem.put"
canonical mem_get = "mem.get"
canonical mem_del = "mem.del"
canonical mem_pttl = "mem.pttl"
canonical mem_expire = "mem.expire"
canonical mem_persist = "mem.persist"
canonical mem_search = "mem.search"

unfoldable pub bounded : Bytes → ℕ → ℕ → Result (Unit {0}) RequestError
bounded value minimum maximum =
    if within minimum maximum (length value) then ok tt else err limit_error

abbrev pub starts_nonzero : Bytes → Bool
starts_nonzero [] = false
starts_nonzero (b ∷ bs) = within b'1' b'9' b

unfoldable pub unsigned : Bytes → Result (Unit {0}) RequestError
unsigned raw =
    if bytes_eq raw (b'0' ∷ []) || (starts_nonzero raw && all is_digit raw)
    then ok tt
    else err argument_error

abbrev pub at_most : ℕ → Option ℕ → Result ℕ RequestError
at_most maximum none = err limit_error
at_most maximum (some value) = if leb value maximum then ok value else err limit_error

abbrev pub count_from : ℕ → ℕ → Bytes → Result ℕ RequestError
count_from maximum value [] = ok value
count_from maximum value (digit ∷ raw) =
    and_then (at_most maximum (push_digit value digit)) (λ next. count_from maximum next raw)

unfoldable pub count : Bytes → ℕ → Result ℕ RequestError
unfolding unsigned
count raw maximum = and_then (unsigned raw) (λ _. count_from maximum 0 raw)

-- `checked_ilog10().unwrap_or(0)`: one less than the number of digits.
abbrev pub ilog10 : ℕ → ℕ
ilog10 n = length (decimal n) - 1

unfoldable pub bulk_size : ℕ → ℕ
bulk_size n = saturating_add n (ilog10 n + 6)

abbrev pub add_bulks : ℕ → List Bytes → ℕ
add_bulks size [] = size
add_bulks size (arg ∷ args) = add_bulks (saturating_add size (bulk_size (length arg))) args

unfoldable pub request_size : Bytes → List Bytes → ℕ
unfolding bulk_size
request_size raw args =
    add_bulks (saturating_add (bulk_size (length raw)) (ilog10 (length args + 1) + 4)) args

-- What is read from the arguments, and the arguments that are left.
abbrev pub Reader : Type 0 → Type 0
Reader A = List Bytes → Result (A × List Bytes) RequestError

unfoldable pub pure : {A : Type 0} → A → Reader A
pure a args = ok (a, args)

unfoldable pub lift : {A : Type 0} → Result A RequestError → Reader A
lift (ok a) args = ok (a, args)
lift (err e) args = err e

infixl 60 ◌then◌
unfoldable pub ◌then◌ : {A B : Type 0} → Reader A → (A → Reader B) → Reader B
(m then f) args = and_then (m args) (λ p. f p.0 p.1)

unfoldable pub next : MemoryName → Reader Bytes
next kind [] = err (wrong_arity (canonical kind))
next kind (a ∷ args) = ok (a, args)

-- `args.len()`.
unfoldable pub left : Reader ℕ
left args = ok (length args, args)

unfoldable pub require : Bool → RequestError → Reader (Unit {0})
require test e = lift (if test then ok tt else err e)

unfoldable pub field : MemoryName → ℕ → ℕ → Reader Bytes
field kind low high = next kind then (λ value. lift (bounded value low high) then (λ _. pure value))

unfoldable pub identity : MemoryName → ℕ → Reader Descriptor
identity kind dimension = field kind 1 256 then (λ provider. field kind 1 256 then (λ model.
    field kind 1 256 then (λ revision. field kind 1 256 then (λ transform. pure (record {
      dimension = dimension;
      provider = provider;
      model = model;
      revision = revision;
      transform = transform;
    })))))

abbrev pub boolean_of : Bytes → Result Scalar RequestError
boolean_of raw =
    if bytes_eq raw (b'0' ∷ [])
    then ok (Scalar.boolean false)
    else if bytes_eq raw (b'1' ∷ [])
    then ok (Scalar.boolean true)
    else err argument_error

unfoldable pub scalar : RequestError → Bytes → Bytes → Result Scalar RequestError
unfolding bounded
scalar unknown kind raw =
    if named kind "BYTES"
    then and_then (bounded raw 0 4096) (λ _. ok (Scalar.bytes raw))
    else if named kind "I64"
    then and_then (ok_or (parse_decimal raw) argument_error) (λ value. ok (Scalar.integer value))
    else if named kind "BOOL"
    then boolean_of raw
    else err unknown

-- A field that stands twice is refused.
abbrev pub put_once :
    {A : Type 0} → Bytes → A → List (Bytes × A) → Result (List (Bytes × A)) RequestError
put_once key value entries =
    let (inserted, replaced) = insert key value entries in
    if replaced then err argument_error else ok inserted

-- The loops over the metadata (of PUT, and of the filter of SEARCH) and over the provenance.
unfoldable pub read_metadata :
    MemoryName → RequestError → ℕ → List (Bytes × Scalar) → Reader (List (Bytes × Scalar))
read_metadata kind unknown zero entries = pure entries
read_metadata kind unknown (suc n) entries = field kind 1 64 then (λ key.
    next kind then (λ scalar_type. next kind then (λ raw.
      lift (scalar unknown scalar_type raw) then (λ value.
        lift (put_once key value entries) then (λ more. read_metadata kind unknown n more)))))

unfoldable pub read_provenance :
    MemoryName → ℕ → List (Bytes × Bytes) → Reader (List (Bytes × Bytes))
read_provenance kind zero entries = pure entries
read_provenance kind (suc n) entries = field kind 1 64 then (λ key.
    field kind 0 4096
    then (λ value. lift (put_once key value entries) then (λ more. read_provenance kind n more)))

unfoldable pub read_vector : MemoryName → Reader Bytes
read_vector kind = next kind then (λ vector.
    require (not (length vector == 0 || not (length vector % 4 == 0))) vector_error then (λ _.
      lift (bounded vector 4 16384) then (λ _.
        require (not (any_not_finite (coordinates vector)))
          (memory "ERR memory vector contains non-finite value")
        then (λ _. pure vector))))

abbrev pub ttl_of : Option ℤ → Result Ttl RequestError
ttl_of (some (negsuc zero)) = ok Ttl.persistent
ttl_of (some (pos (suc n))) = ok (Ttl.after (pos (suc n)))
ttl_of _ = err ttl_error

unfoldable pub ttl : Bytes → Result Ttl RequestError
ttl raw = if named raw "KEEP" then ok Ttl.keep else ttl_of (parse_decimal raw)

unfoldable pub condition : Bytes → Result SetCondition RequestError
condition raw =
    if named raw "UPSERT"
    then ok SetCondition.always
    else if named raw "NX"
    then ok SetCondition.missing
    else if named raw "XX"
    then ok SetCondition.present
    else err argument_error

abbrev pub valid : {A : Type 0} → Result A MemoryError → Result A RequestError
valid (ok a) = ok a
valid (err e) = err limit_error

unfoldable pub read_create : Reader Operation
read_create = next mem_create then (λ version. lift (unsigned version) then (λ _.
    require (bytes_eq version (b'1' ∷ [])) (memory "ERR unsupported memory schema version")
    then (λ _. next mem_create then (λ raw. lift (count raw 4096) then (λ dimension.
        require (not (dimension == 0)) limit_error then (λ _. next mem_create then (λ metric.
          require (named metric "L2SQ") (memory "ERR unsupported memory metric")
          then (λ _. identity mem_create dimension then (λ d. pure (Operation.create d))))))))))

unfoldable pub read_put : Reader Operation
read_put = field mem_put 1 256 then (λ id. field mem_put 0 256 then (λ namespace.
    field mem_put 0 65536 then (λ content. identity mem_put 1 then (λ unsized.
      read_vector mem_put then (λ vector.
        let descriptor : Descriptor = record unsized { dimension = length vector / 4 } in
        next mem_put then (λ raw_ttl. lift (ttl raw_ttl) then (λ time.
          next mem_put then (λ raw_condition. lift (condition raw_condition) then (λ existence.
            next mem_put then (λ fields. lift (count fields 32) then (λ n. left then (λ rest.
              require (leb (n * 3 + 1) rest) (wrong_arity "mem.put") then (λ _.
                read_metadata mem_put argument_error n [] then (λ metadata.
                  next mem_put then (λ sources. lift (count sources 16) then (λ m.
                    left then (λ more. require (more == m * 2) (wrong_arity "mem.put") then (λ _.
                      read_provenance mem_put m [] then (λ provenance.
                        let member : Member = record {
                          id = id;
                          namespace = namespace;
                          content = content;
                          vector = vector;
                          deadline = none;
                          metadata = metadata;
                          provenance = provenance;
                        } in
                        lift (valid (validate_member member descriptor)) then (λ _.
                          pure (Operation.put descriptor member time existence)))))))))))))))))))))

unfoldable pub read_search : Reader Operation
read_search = identity mem_search 1 then (λ unsized. read_vector mem_search then (λ vector.
    next mem_search then (λ raw. lift (count raw usize_max) then (λ k.
      require (within 1 128 k) (memory "ERR memory k is out of range") then (λ _.
        field mem_search 0 256 then (λ namespace. next mem_search then (λ fields.
          lift (count fields 32) then (λ n. left then (λ rest.
            require (rest == n * 3) (wrong_arity "mem.search") then (λ _.
              read_metadata mem_search (memory "ERR unsupported memory filter") n []
              then (λ metadata. pure (
                  Operation.search (record unsized { dimension = length vector / 4 }) vector k
                    namespace metadata))))))))))))

unfoldable pub read_id : MemoryName → (Bytes → Operation) → Reader Operation
read_id kind make = field kind 1 256 then (λ id. pure (make id))

unfoldable pub read_expire : Reader Operation
read_expire = field mem_expire 1 256 then (λ id. next mem_expire then (λ raw.
    lift (ok_or (parse_decimal raw) ttl_error)
    then (λ milliseconds. pure (Operation.expire id milliseconds))))

abbrev pub read_operation : MemoryName → Reader Operation
read_operation mem_create = read_create
read_operation mem_info = pure Operation.info
read_operation mem_put = read_put
read_operation mem_get = read_id mem_get Operation.get
read_operation mem_del = read_id mem_del Operation.delete
read_operation mem_pttl = read_id mem_pttl Operation.pttl
read_operation mem_expire = read_expire
read_operation mem_persist = read_id mem_persist Operation.persist
read_operation mem_search = read_search

abbrev pub arity : MemoryName → ℕ → Bool
arity mem_create n = n == 8
arity mem_info n = n == 1
arity mem_expire n = n == 3
arity mem_put n = leb 13 n
arity mem_search n = leb 9 n
arity mem_get n = n == 2
arity mem_del n = n == 2
arity mem_pttl n = n == 2
arity mem_persist n = n == 2

abbrev pub read_command : MemoryName → Reader Command
read_command kind =
    field kind 1 256
    then (λ key. read_operation kind then (λ operation. pure (Command.memory key operation)))

unfoldable pub parse : MemoryName → Bytes → List Bytes → Result Command RequestError
parse kind raw args =
    if ltb 262144 (request_size raw args)
    then err limit_error
    else if not (arity kind (length args))
    then err (wrong_arity (canonical kind))
    else and_then (read_command kind args) (λ p. ok p.0)

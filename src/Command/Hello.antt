-- ===== src/Command/Hello.antt =====
-- command/hello.rs: the requests HELLO and AUTH. The arms for a part that is no string, which the test
-- on all parts has excluded, are left out.
use mathlib.Core.Path.{subst}
use sider.Prelude.{sym}
use sider.Prelude.{
  ℕ, ◌≡◌, ◌≢◌, refl, true, false, Bool-cases, ◌⊎◌, inl, inr, not, Option, none, some, List, [], ◌∷◌,
  if◌then◌else◌, Result, ok, err, and_then, bytes_eq, bytes_eq→eq, arith,
}
use sider.Prelude.Int.{ℤ}
use sider.Resp.Frame.{Bytes, Frame}
use sider.Command.Names.{
  RequestError, text, named, is_fatal, invalid_format, unsupported_hello_options,
  unsupported_protocol_version, invalid_protocol_version, unknown_command, wrong_arity, syntax,
}
use sider.Command.Decimal.{parse_decimal}
use sider.Command.Parser.{arguments}

-- A user name and a password.
abbrev pub Credentials : Type 0
Credentials = Bytes × Bytes

pub record HelloAuthentication : Type 0 where
  pub version : Option ℕ
  pub authentication : Option Credentials

-- `bulk_arguments`, and the same test in `parse_hello`.
abbrev pub not_empty : Option (List Bytes) → Result (List Bytes) RequestError
not_empty none = err invalid_format
not_empty (some []) = err invalid_format
not_empty (some (part ∷ parts)) = ok (part ∷ parts)

abbrev pub bulk_arguments : Frame → Result (List Bytes) RequestError
bulk_arguments frame = not_empty (arguments frame)

abbrev pub auth_of : List Bytes → Result Credentials RequestError
auth_of (name ∷ (username ∷ (password ∷ []))) = ok (username, password)
auth_of parts = err (wrong_arity "auth")

abbrev pub parse_auth : Frame → Result Credentials RequestError
parse_auth frame = and_then (bulk_arguments frame) auth_of

abbrev pub bad_version : Option ℤ → RequestError
bad_version (some n) = unsupported_protocol_version
bad_version none = invalid_protocol_version

unfoldable pub version_of : Bytes → Result ℕ RequestError
version_of version =
    if bytes_eq version (text "2")
    then ok 2
    else if bytes_eq version (text "3")
    then ok 3
    else err (bad_version (parse_decimal version))

-- The version, `parts.get(1)`.
abbrev pub hello_version : List Bytes → Result (Option ℕ) RequestError
hello_version (name ∷ (version ∷ parts)) = and_then (version_of version) (λ v. ok (some v))
hello_version parts = ok none

abbrev pub credentials : List Bytes → Result (Option Credentials) RequestError
credentials (username ∷ (password ∷ [])) = ok (some (username, password))
credentials parts = err syntax

abbrev pub hello_credentials : List Bytes → Result (Option Credentials) RequestError
hello_credentials (name ∷ (version ∷ (option ∷ parts))) =
    if not (named option "AUTH") then err unsupported_hello_options else credentials parts
hello_credentials parts = ok none

abbrev pub hello_auth_of : List Bytes → Result HelloAuthentication RequestError
hello_auth_of parts = and_then (hello_version parts) (λ version.
    and_then (hello_credentials parts)
      (λ authentication. ok (record { version = version; authentication = authentication })))

unfoldable pub parse_hello_auth : Frame → Result HelloAuthentication RequestError
parse_hello_auth frame = and_then (bulk_arguments frame) hello_auth_of

abbrev pub hello_of : List Bytes → Result (Option ℕ) RequestError
hello_of [] = err invalid_format
hello_of (name ∷ parts) = if not (named name "HELLO") then err unknown_command else elim parts [
  | [] ↦ ok none
  | version ∷ more ↦ elim more [
    | [] ↦ hello_version (name ∷ (version ∷ []))
    | option ∷ rest ↦ err unsupported_hello_options
  ]
]

unfoldable pub parse_hello : Frame → Result (Option ℕ) RequestError
parse_hello frame = and_then (bulk_arguments frame) hello_of

-- What stands after the version: nothing, or AUTH in any case with a user name and a password.
pub data Logs : List Bytes → Option Credentials → Type 0 where
  nobody : Logs [] none
  somebody :
      {option username password : Bytes}
      → named option "AUTH" ≡ true
      → Logs (option ∷ (username ∷ (password ∷ []))) (some (username, password))

-- How HELLO spells the version that it asks for, and the credentials.
pub data Asks : List Bytes → Option ℕ → Option Credentials → Type 0 where
  plain : {name : Bytes} → Asks (name ∷ []) none none
  two :
      {name : Bytes} {parts : List Bytes} {who : Option Credentials}
      → Logs parts who
      → Asks (name ∷ (text "2" ∷ parts)) (some 2) who
  three :
      {name : Bytes} {parts : List Bytes} {who : Option Credentials}
      → Logs parts who
      → Asks (name ∷ (text "3" ∷ parts)) (some 3) who

-- The answer to a request with the given arguments, if it is one.
abbrev pub Negotiates : Option (List Bytes) → Result HelloAuthentication RequestError → Type 0
Negotiates none answer = answer ≡ err invalid_format
Negotiates (some []) answer = answer ≡ err invalid_format
Negotiates (some parts) (ok h) = Asks parts h.version h.authentication
Negotiates (some parts) (err e) =
    (is_fatal e ≡ false) × ((v : Option ℕ) (who : Option Credentials) → Asks parts v who → ⊥)

Logs-named :
    {option : Bytes} {parts : List Bytes} {who : Option Credentials}
    → Logs (option ∷ parts) who
    → named option "AUTH" ≡ true
Logs-named (somebody h) = h

Logs-total :
    (name version : Bytes) (parts : List Bytes)
    → ((who : Option Credentials) × (hello_credentials (name ∷ (version ∷ parts)) ≡ ok who)
        × Logs parts who)
      ⊎ ((e : RequestError) × (hello_credentials (name ∷ (version ∷ parts)) ≡ err e)
          × (is_fatal e ≡ false)
          × ((who : Option Credentials) → Logs parts who → ⊥))
Logs-total name version [] = inl (none, refl, nobody)
Logs-total name version (option ∷ parts) = elim (Bool-cases (named option "AUTH")) [
  | inl e ↦ rw e (given parts e)
  | inr e ↦ rw e (
      inr (
        unsupported_hello_options,
        refl,
        refl,
        λ who logs. absurd (ground (arith, e, Logs-named logs)),
      ))
]
  where
    given :
        (parts : List Bytes)
        → named option "AUTH" ≡ true
        → ((who : Option Credentials) × (credentials parts ≡ ok who) × Logs (option ∷ parts) who)
          ⊎ ((e : RequestError) × (credentials parts ≡ err e)
              × (is_fatal e ≡ false)
              × ((who : Option Credentials) → Logs (option ∷ parts) who → ⊥))
    given [] e = inr (syntax, refl, refl, λ who logs. elim logs [ ])
    given (u ∷ []) e = inr (syntax, refl, refl, λ who logs. elim logs [ ])
    given (u ∷ (p ∷ [])) e = inl (some (u, p), refl, somebody e)
    given (u ∷ (p ∷ (x ∷ parts))) e = inr (syntax, refl, refl, λ who logs. elim logs [ ])

bad_version-mild : (n : Option ℤ) → is_fatal (bad_version n) ≡ false
bad_version-mild none = refl
bad_version-mild (some n) = refl

version-cases :
    (version : Bytes)
    → ((version ≡ text "2") × (version_of version ≡ ok 2))
      ⊎ (((version ≡ text "3") × (version_of version ≡ ok 3))
          ⊎ ((e : RequestError) × (version_of version ≡ err e)
              × (is_fatal e ≡ false)
              × (version ≢ text "2")
              × (version ≢ text "3")))
unfolding version_of
version-cases version = elim (Bool-cases (bytes_eq version (text "2"))) [
  | inl e ↦ inl (bytes_eq→eq version (text "2") e, rw e refl)
  | inr e ↦ elim (Bool-cases (bytes_eq version (text "3"))) [
    | inl f ↦ inr (inl (bytes_eq→eq version (text "3") f, rw (e, f) refl))
    | inr f ↦ inr (
        inr (
          bad_version (parse_decimal version),
          rw (e, f) refl,
          bad_version-mild (parse_decimal version),
          λ same.
              absurd (ground (arith, e, subst (λ v. bytes_eq v (text "2") ≡ true) (sym same) refl)),
          λ same.
              absurd (ground (arith, f, subst (λ v. bytes_eq v (text "3") ≡ true) (sym same) refl)),
        ))
  ]
]

Asks-version :
    {name version : Bytes} {parts : List Bytes} {v : Option ℕ} {who : Option Credentials}
    → Asks (name ∷ (version ∷ parts)) v who
    → ((version ≡ text "2") ⊎ (version ≡ text "3")) × Logs parts who
Asks-version (two logs) = (inl refl, logs)
Asks-version (three logs) = (inr refl, logs)

with_version :
    (name version : Bytes) (parts : List Bytes) (n : ℕ)
    → ((who : Option Credentials) → Logs parts who → Asks (name ∷ (version ∷ parts)) (some n) who)
    → Negotiates (some (name ∷ (version ∷ parts))) (
        and_then
          (hello_credentials (name ∷ (version ∷ parts)))
          (λ who. ok (record { version = some n; authentication = who })))
with_version name version parts n asks = elim (Logs-total name version parts) [
  | inl (who, eq, logs) ↦ rw eq (asks who logs)
  | inr (e, eq, mild, never) ↦ rw eq (mild, λ v who a. never who (Asks-version a).1)
]

negotiated :
    (name version : Bytes) (parts : List Bytes)
    → Negotiates (some (name ∷ (version ∷ parts))) (hello_auth_of (name ∷ (version ∷ parts)))
negotiated name version parts = elim (version-cases version) [
  | inl (same, one) ↦ rw one (
      with_version name version parts 2 (λ who logs.
        subst (λ (v : Bytes). Asks (name ∷ (v ∷ parts)) (some 2) who) (sym same) (two logs)))
  | inr (inl (same, one)) ↦ rw one (
      with_version name version parts 3 (λ who logs.
        subst (λ (v : Bytes). Asks (name ∷ (v ∷ parts)) (some 3) who) (sym same) (three logs)))
  | inr (inr (e, one, mild, not_two, not_three)) ↦
      rw one
        (mild, λ v who a. elim ((Asks-version a).0) [ inl s ↦ not_two s | inr s ↦ not_three s ])
]

-- HELLO with AUTH, whatever the frame: one that is no array of strings, or an empty one, has an invalid
-- format; any other is answered with the version and the credentials that its arguments ask for, the
-- version 2 or 3 in one digit and then nothing or AUTH with a user name and a password, or, if they ask
-- for none, with an error that is not fatal.
pub parse_hello_auth-Negotiates :
    (frame : Frame) → Negotiates (arguments frame) (parse_hello_auth frame)
unfolding parse_hello_auth
parse_hello_auth-Negotiates frame = answered (arguments frame)
  where
    answered :
        (parts : Option (List Bytes)) → Negotiates parts (and_then (not_empty parts) hello_auth_of)
    answered none = refl
    answered (some []) = refl
    answered (some (name ∷ [])) = plain
    answered (some (name ∷ (version ∷ parts))) = negotiated name version parts

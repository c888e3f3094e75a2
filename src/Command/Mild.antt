-- ===== src/Command/Mild.antt =====
-- command/parser.rs: the steps of the parsers and the errors that they can give.
use Prim.Native.String.{String}
use sider.Prelude.{
  ℕ, zero, suc, ◌≡◌, refl, Bool, true, false, Option, none, some, List, [], ◌∷◌, map, if◌then◌else◌,
  Result, ok, err, and_then, ok_or, All, get_elem?,
}
use sider.Prelude.Int.{ℤ, pos, negsuc}
use sider.Prelude.Machine.{checked_mul_i64}
use sider.Resp.Frame.{Bytes}
use sider.Command.Types.{Command, keys_of, SetOptions}
use sider.Command.Names.{RequestError, is_fatal, syntax, invalid_integer, invalid_set_expiry}
use sider.Command.Options.{
  parse_integer, parse_set_options, read_words, finish_options, millis, expire_after, is_seconds,
  finish_with, Reading, start, Word, plain, timed, bad, word,
}
use sider.Command.Collections.{pairs}
use sider.Command.Parser.{one_argument, no_argument, some_arguments}

abbrev pub Occurs : List Bytes → Bytes → Type 0
Occurs args key = (i : ℕ) × (get_elem? args i ≡ some key)

abbrev pub KeysFrom : List Bytes → List Bytes → Type 0
KeysFrom args keys = All (Occurs args) keys

-- The keys of an accepted command occur among the arguments, and no error ends the connection.
pub data Answers (args : List Bytes) : Result Command RequestError → Type 0 where
  accepted : {c : Command} → KeysFrom args (keys_of c) → Answers args (ok c)
  refused : {e : RequestError} → is_fatal e ≡ false → Answers args (err e)

pub data Mild {A : Type 0} : Result A RequestError → Type 0 where
  fine : {a : A} → Mild (ok a)
  harmless : {e : RequestError} → is_fatal e ≡ false → Mild (err e)

pub and_then-Mild :
    {A B : Type 0} {r : Result A RequestError} {f : A → Result B RequestError}
    → Mild r
    → ((a : A) → Mild (f a))
    → Mild (and_then r f)
and_then-Mild (fine {a}) k = k a
and_then-Mild (harmless h) k = harmless h

pub and_then-Answers :
    {A : Type 0} {args : List Bytes} {r : Result A RequestError}
    {f : A → Result Command RequestError}
    → Mild r
    → ((a : A) → Answers args (f a))
    → Answers args (and_then r f)
and_then-Answers (fine {a}) k = k a
and_then-Answers (harmless h) k = refused h

pub if-Mild :
    {A : Type 0} (b : Bool) {r s : Result A RequestError}
    → Mild r
    → Mild s
    → Mild (if b then r else s)
if-Mild true m n = m
if-Mild false m n = n

pub if-Answers :
    {args : List Bytes} (b : Bool) {r s : Result Command RequestError}
    → Answers args r
    → Answers args s
    → Answers args (if b then r else s)
if-Answers true m n = m
if-Answers false m n = n

pub ok_or-Mild :
    {A : Type 0} (o : Option A) (e : RequestError) → is_fatal e ≡ false → Mild (ok_or o e)
ok_or-Mild none e h = harmless h
ok_or-Mild (some a) e h = fine

pub parse_integer-Mild : (value : Bytes) → Mild (parse_integer value)
unfolding parse_integer
parse_integer-Mild value = ok_or-Mild _ invalid_integer refl

pub KeysFrom-cons :
    (a : Bytes) (args keys : List Bytes) → KeysFrom args keys → KeysFrom (a ∷ args) keys
KeysFrom-cons a args [] h = tt
KeysFrom-cons a args (k ∷ keys) ((i, at), h) = ((suc i, at), KeysFrom-cons a args keys h)

pub KeysFrom-self : (args : List Bytes) → KeysFrom args args
KeysFrom-self [] = tt
KeysFrom-self (a ∷ args) = ((0, refl), KeysFrom-cons a args args (KeysFrom-self args))

abbrev pub PairsFrom : List Bytes → Result (List (Bytes × Bytes)) RequestError → Type 0
PairsFrom args (ok entries) = KeysFrom args (map (λ e. e.0) entries)
PairsFrom args (err e) = is_fatal e ≡ false

pub pairs-cons :
    (a b : Bytes) (args : List Bytes) (r : Result (List (Bytes × Bytes)) RequestError)
    → PairsFrom args r
    → PairsFrom (a ∷ (b ∷ args)) (and_then r (λ entries. ok ((a, b) ∷ entries)))
pairs-cons a b args (ok entries) h =
    ((0, refl), KeysFrom-cons a (b ∷ args) _ (KeysFrom-cons b args _ h))
pairs-cons a b args (err e) h = h

pub pairs-PairsFrom : (name : String) (args : List Bytes) → PairsFrom args (pairs name args)
pairs-PairsFrom name [] = tt
pairs-PairsFrom name (a ∷ []) = refl
pairs-PairsFrom name (a ∷ (b ∷ args)) =
    pairs-cons a b args (pairs name args) (pairs-PairsFrom name args)

pub PairsFrom-Mild :
    (args : List Bytes) (r : Result (List (Bytes × Bytes)) RequestError) → PairsFrom args r → Mild r
PairsFrom-Mild args (ok entries) h = fine
PairsFrom-Mild args (err e) h = harmless h

pub mset-Answers :
    (args : List Bytes) (r : Result (List (Bytes × Bytes)) RequestError)
    → PairsFrom args r
    → Answers args (and_then r (λ entries. ok (Command.mset entries)))
mset-Answers args (ok entries) h = accepted h
mset-Answers args (err e) h = refused h

pub one-Answers :
    (name : String) (make : Bytes → Command) (args : List Bytes)
    → ((a : Bytes) → Answers (a ∷ []) (ok (make a)))
    → Answers args (one_argument name make args)
one-Answers name make [] h = refused refl
one-Answers name make (a ∷ []) h = h a
one-Answers name make (a ∷ (b ∷ args)) h = refused refl

pub none-Answers :
    (name : String) (c : Command) (args : List Bytes)
    → keys_of c ≡ []
    → Answers args (no_argument name c args)
none-Answers name c [] h = accepted (rw h tt)
none-Answers name c (a ∷ args) h = refused refl

pub some-Answers :
    (name : String) (make : List Bytes → Command) (args : List Bytes)
    → ((all : List Bytes) → KeysFrom all (keys_of (make all)))
    → Answers args (some_arguments name make args)
some-Answers name make [] h = refused refl
some-Answers name make (a ∷ args) h = accepted (h (a ∷ args))

last_word-Mild :
    (w : Word)
    → Mild (elim w as (λ (v : Word). Result Reading RequestError) [
      | plain r' ↦ ok r'
      | timed seconds ↦ err syntax
      | bad ↦ err syntax
    ])
last_word-Mild (plain r) = fine
last_word-Mild (timed s) = harmless refl
last_word-Mild bad = harmless refl

next_word-Mild :
    (r : Reading) (value : Bytes) (args : List Bytes) (w : Word)
    → ((r : Reading) → Mild (read_words r (value ∷ args)))
    → ((r : Reading) → Mild (read_words r args))
    → Mild (elim w as (λ (v : Word). Result Reading RequestError) [
      | plain r' ↦ read_words r' (value ∷ args)
      | timed seconds ↦ read_words (record r { duration = some value; unit = some seconds }) args
      | bad ↦ err syntax
    ])
next_word-Mild r value args (plain r') one two = one r'
next_word-Mild r value args (timed s) one two = two _
next_word-Mild r value args bad one two = harmless refl

read_words-Mild : (args : List Bytes) (r : Reading) → Mild (read_words r args)
unfolding read_words
read_words-Mild [] r = fine
read_words-Mild (a ∷ []) r = last_word-Mild (word r a)
read_words-Mild (a ∷ (value ∷ args)) r =
    next_word-Mild r value args (word r a) (read_words-Mild (value ∷ args)) (read_words-Mild args)

expire_after-Mild : (o : SetOptions) (v : ℤ) → Mild (expire_after o v)
expire_after-Mild o (pos zero) = harmless refl
expire_after-Mild o (pos (suc n)) = fine
expire_after-Mild o (negsuc n) = harmless refl

millis-Mild : (unit : Option Bool) (v : ℤ) → Mild (millis unit v)
millis-Mild unit v =
    if-Mild (is_seconds unit) (ok_or-Mild (checked_mul_i64 v (pos 1000)) invalid_set_expiry refl)
      fine

finish_with-Mild : (r : Reading) (duration : Option Bytes) → Mild (finish_with r duration)
finish_with-Mild r none = fine
finish_with-Mild r (some value) =
    and_then-Mild (parse_integer-Mild value)
      (λ v. and_then-Mild (millis-Mild r.unit v) (expire_after-Mild r.options))

pub parse_set_options-Mild : (args : List Bytes) → Mild (parse_set_options args)
unfolding parse_set_options finish_options
parse_set_options-Mild args =
    and_then-Mild (read_words-Mild args start) (λ r. finish_with-Mild r r.duration)

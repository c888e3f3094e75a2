-- ===== src/Command/SetTimes.antt =====
-- command/parser.rs: the times that the options of SET can ask for.
use sider.Prelude.{
  zero, suc, ◌<◌, ◌≡◌, refl, sym, ◌∙◌, Bool, true, ◌||◌, none, some, List, [], ◌∷◌, Result, ok, err,
  and_then, Option-cases, inl, inr, ◌⊎◌, arith, All,
}
use sider.Prelude.Int.{ℤ, pos, negsuc}
use sider.Resp.Frame.{Bytes}
use sider.Command.Types.{SetExpiry, SetOptions}
use sider.Command.Names.{named, RequestError, syntax}
use sider.Command.Options.{
  parse_integer, Reading, start, Word, plain, timed, bad, word, read_words, finish_options,
  parse_set_options, millis, expire_after,
}

-- The words that take no argument.
abbrev pub is_plain_word : Bytes → Bool
is_plain_word a = named a "NX" || (named a "XX" || (named a "GET" || named a "KEEPTTL"))

-- What a reading keeps: after KEEPTTL no duration has been read, and there is no other time yet.
abbrev Sound : Reading → Type 0
Sound r =
    (r.options.expiry ≡ SetExpiry.persistent)
    ⊎ ((r.options.expiry ≡ SetExpiry.keep) × (r.duration ≡ none))

abbrev FromWord : Reading → Bytes → Word → Type 0
FromWord r a (plain r') = (is_plain_word a ≡ true) × (r'.duration ≡ r.duration) × Sound r'
FromWord r a (timed seconds) = r.options.expiry ≡ SetExpiry.persistent
FromWord r a bad = Unit {0}

keeps_word : (r : Reading) (a : Bytes) → Sound r → FromWord r a (word r a)
unfolding word
keeps_word r a s = ground arith

-- From a sound reading to another: the words were plain if no duration has been read.
abbrev FromWords : Reading → List Bytes → Result Reading RequestError → Type 0
FromWords r args (ok r') =
    Sound r'
    × (r'.duration ≡ none → (r.duration ≡ none) × All (λ (a : Bytes). is_plain_word a ≡ true) args)
FromWords r args (err e) = Unit {0}

after_word :
    (r r' : Reading) (a : Bytes) (args : List Bytes) (result : Result Reading RequestError)
    → is_plain_word a ≡ true
    → r'.duration ≡ r.duration
    → FromWords r' args result
    → FromWords r (a ∷ args) result
after_word r r' a args (ok r'') p e (s, k) =
    (s, λ h. let (d, all_plain) = k h in (sym e ∙ d, (p, all_plain)))
after_word r r' a args (err x) p e k = tt

after_time :
    (r r' : Reading) (value : Bytes) (args all_args : List Bytes)
    (result : Result Reading RequestError)
    → r'.duration ≡ some value
    → FromWords r' args result
    → FromWords r all_args result
after_time r r' value args all_args (ok r'') e (s, k) =
    (s, λ h. absurd (none_some value (sym (k h).0 ∙ e)))
  where
    none_some : (v : Bytes) → none ≡ some v → ⊥
    none_some v h = cc
after_time r r' value args all_args (err x) e k = tt

last_word :
    (r : Reading) (a : Bytes) (w : Word)
    → FromWord r a w
    → FromWords r
        (a ∷ [])
        (elim w [ plain r' ↦ ok r' | timed seconds ↦ err syntax | bad ↦ err syntax ])
last_word r a (plain r') (p, e, s) = (s, λ h. (sym e ∙ h, (p, tt)))
last_word r a (timed seconds) f = tt
last_word r a bad f = tt

abbrev Kept : List Bytes → Type 0
Kept args = (r : Reading) → Sound r → FromWords r args (read_words r args)

next_word :
    (r : Reading) (a value : Bytes) (args : List Bytes) (w : Word)
    → Kept (value ∷ args)
    → Kept args
    → FromWord r a w
    → FromWords r (a ∷ (value ∷ args)) (elim w [
      | plain r' ↦ read_words r' (value ∷ args)
      | timed seconds ↦ read_words (record r { duration = some value; unit = some seconds }) args
      | bad ↦ err syntax
    ])
next_word r a value args (plain r') one two (p, e, s) =
    after_word r r' a (value ∷ args) _ p e (one r' s)
next_word r a value args (timed seconds) one two s =
    let timed_reading : Reading = record r { duration = some value; unit = some seconds } in
    after_time r timed_reading value args (a ∷ (value ∷ args)) _ refl (two timed_reading (inl s))
next_word r a value args bad one two f = tt

keeps_words : (args : List Bytes) → Kept args
unfolding read_words
keeps_words [] r s = (s, λ h. (h, tt))
keeps_words (a ∷ []) r s = last_word r a (word r a) (keeps_word r a s)
keeps_words (a ∷ (value ∷ args)) r s =
    next_word r a value args (word r a) (keeps_words (value ∷ args)) (keeps_words args)
      (keeps_word r a s)

-- What the options say of the time: a duration is positive, and KEEPTTL stands with plain words only.
abbrev pub TimedBy : List Bytes → SetExpiry → Type 0
TimedBy args (SetExpiry.after ms) = 0 < ms
TimedBy args SetExpiry.keep = All (λ (a : Bytes). is_plain_word a ≡ true) args
TimedBy args SetExpiry.persistent = Unit {0}

abbrev pub Timed : List Bytes → Result SetOptions RequestError → Type 0
Timed args (ok o) = TimedBy args o.expiry
Timed args (err e) = Unit {0}

finish_Timed :
    (args : List Bytes) (r : Reading) → FromWords start args (ok r) → Timed args (finish_options r)
unfolding finish_options
finish_Timed args r (s, k) = elim (Option-cases r.duration) [
  | inl e ↦ rw e (untimed s (k e).1)
  | inr (value, e) ↦ rw e (with_value (parse_integer value))
]
  where
    untimed :
        Sound r → All (λ (a : Bytes). is_plain_word a ≡ true) args → TimedBy args r.options.expiry
    untimed (inl e) all_plain = rw e tt
    untimed (inr (e, none_read)) all_plain = rw e all_plain

    expire : (v : ℤ) → Timed args (expire_after r.options v)
    expire (pos zero) = tt
    expire (pos (suc n)) = omega arith
    expire (negsuc n) = tt

    with_millis : (m : Result ℤ RequestError) → Timed args (and_then m (expire_after r.options))
    with_millis (ok v) = expire v
    with_millis (err e) = tt

    with_value :
        (p : Result ℤ RequestError)
        → Timed args (and_then p (λ v. and_then (millis r.unit v) (expire_after r.options)))
    with_value (ok v) = with_millis (millis r.unit v)
    with_value (err e) = tt

-- Whatever stands after key and value, options that are accepted ask for no duration that is not
-- positive, and ask to keep the time only where each word is NX, XX, GET or KEEPTTL.
pub parse_set_options-Timed : (args : List Bytes) → Timed args (parse_set_options args)
unfolding parse_set_options
parse_set_options-Timed args = finished (read_words start args) (keeps_words args start (inl refl))
  where
    finished :
        (result : Result Reading RequestError)
        → FromWords start args result
        → Timed args (and_then result finish_options)
    finished (ok r) f = finish_Timed args r f
    finished (err e) f = tt

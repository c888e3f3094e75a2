-- ===== src/Storage/Admission.antt =====
-- storage/admission.rs: the gate that an unfinished publication closes.
-- The clones of an `Admission` share one atomic flag, so that a load or a store is a step on it. A
-- `Publication` is kept without the shared flag, which its drop is given.
use sider.Prelude.{
  ℕ, zero, suc, ◌+◌, ◌≡◌, ◌↔◌, refl, Bool, true, false, not, List, [], ◌∷◌, if◌then◌else◌, Result,
  ok, err, arith,
}

pub data DbError : Type 0 where
  unavailable : DbError

pub record Admission : Type 0 where
  pub accepting : Bool

abbrev pub default : Admission
default = record { accepting = true }

unfoldable pub check : Admission → Result (Unit {0}) DbError
check a = if a.accepting then ok tt else err unavailable

pub record Publication : Type 0 where
  pub complete : Bool

unfoldable pub publication : Publication
publication = record { complete = false }

-- `drop`, which every way of leaving a publication runs.
unfoldable pub drop : Publication → Admission → Admission
drop p a = if not p.complete then record { accepting = false } else a

-- `complete` takes the publication and drops it.
unfoldable pub complete : Publication → Admission → Admission
complete p a = drop (record p { complete = true }) a

-- Tasks that share the gate: each begins, completes or leaves a publication at any time. `left` is
-- the number of publications that were left without having been completed.
pub record World : Type 0 where
  pub admission : Admission
  pub running : List Publication
  pub left : ℕ

-- A publication that is one of those open, and the others.
pub data Takes (p : Publication) : List Publication → List Publication → Type 0 where
  first : {ps : List Publication} → Takes p (p ∷ ps) ps
  later :
      {q : Publication} {ps rest : List Publication} → Takes p ps rest → Takes p (q ∷ ps) (q ∷ rest)

pub data Step (w : World) : World → Type 0 where
  begins : Step w (record w { running = publication ∷ w.running })
  completes :
      (p : Publication) (rest : List Publication)
      → Takes p w.running rest
      → Step w (record w { admission = complete p w.admission; running = rest })
  abandons :
      (p : Publication) (rest : List Publication)
      → Takes p w.running rest
      → Step w (record w { admission = drop p w.admission; running = rest; left = w.left + 1 })

pub data Reach (w : World) : World → Type 0 where
  here : Reach w w
  then_step : {u v : World} → Reach w u → Step u v → Reach w v

abbrev pub start : World
start = record { admission = default; running = []; left = 0 }

-- The publications that are open are not complete, and the gate tells whether one was left.
abbrev Pending : List Publication → Type 0
Pending [] = Unit {0}
Pending (p ∷ ps) = (p.complete ≡ false) × Pending ps

abbrev is_zero : ℕ → Bool
is_zero zero = true
is_zero (suc n) = false

record IsSound (w : World) : Type 0 where
  pending : Pending w.running
  gate : w.admission.accepting ≡ is_zero w.left

Takes-Pending :
    {p : Publication} {ps rest : List Publication}
    → Takes p ps rest
    → Pending ps
    → (p.complete ≡ false) × Pending rest
Takes-Pending first h = h
Takes-Pending (later t) h = let (c, r) = Takes-Pending t h.1 in (c, (h.0, r))

Step-IsSound : {w w' : World} → Step w w' → IsSound w → IsSound w'
unfolding publication drop complete
Step-IsSound begins s = record { pending = (refl, s.pending); gate = s.gate }
Step-IsSound (completes p rest t) s = record {
  pending = (Takes-Pending t s.pending).1;
  gate = s.gate;
}
Step-IsSound {w} (abandons p rest t) s =
    let (c, r) = Takes-Pending t s.pending in record { pending = r; gate = ground arith }

Reach-IsSound : {w w' : World} → Reach w w' → IsSound w → IsSound w'
Reach-IsSound here s = s
Reach-IsSound (then_step r t) s = Step-IsSound t (Reach-IsSound r s)

-- Whatever publications began, completed or were left, in any order, requests are admitted exactly
-- as long as none was left without having been completed.
pub check_iff : (w : World) → Reach start w → (check w.admission ≡ ok tt) ↔ (w.left ≡ 0)
unfolding check
check_iff w r =
    let s = Reach-IsSound r (record { pending = tt; gate = refl }) in (ground arith, ground arith)

-- ===== src/Resp/Post.antt =====
-- Postconditions of the scanner's actions: what holds when one returns, an error set aside.
use sider.Resp.State.{Scanner, Outcome, ok, err, stuck}

abbrev pub Post {ℓ} : {A : Type ℓ} → (A → Scanner → Type 0) → Outcome A → Scanner → Type 0
Post Q (ok a) d = Q a d
Post Q (err e) d = Unit
Post Q stuck d = ⊥

-- The postcondition of a run.
abbrev pub Returns {ℓ} : {A : Type ℓ} → (A → Scanner → Type 0) → Outcome A × Scanner → Type 0
Returns Q r = Post Q r.0 r.1

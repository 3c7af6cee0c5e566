-- ===== src/State/Runs/Distinct.antt =====
-- Lists of runs with no run id twice.
use gcit.Base.{false, List, [], ◌∷◌, ◌++◌, ◌≡◌, refl, arith, any, any-append, All}
use gcit.State.Types.{RunState}
use gcit.State.Apply.{has_id}

abbrev pub IsDistinct : List RunState → Type 0
IsDistinct [] = Unit
IsDistinct (r ∷ rs) = (any (has_id r.run_id) rs ≡ false) × IsDistinct rs

-- A new id may be appended.
pub IsDistinct-push :
    (rs : List RunState) (r : RunState)
    → any (has_id r.run_id) rs ≡ false
    → IsDistinct rs
    → IsDistinct (rs ++ (r ∷ []))
unfolding any
IsDistinct-push [] r h d = (refl, tt)
IsDistinct-push (x ∷ rs) r h d = (
  ground (arith, any-append (has_id x.run_id) rs (r ∷ [])),
  IsDistinct-push rs r (ground arith) d.1,
)

-- What is left when one run is taken out is distinct, and does not have its id.
pub IsDistinct-remove :
    (before : List RunState) (r : RunState) (after : List RunState)
    → IsDistinct (before ++ (r ∷ after))
    → IsDistinct (before ++ after) × (any (has_id r.run_id) (before ++ after) ≡ false)
unfolding any
IsDistinct-remove [] r after d = (d.1, d.0)
IsDistinct-remove (x ∷ before) r after d =
    let (rest, gone) = IsDistinct-remove before r after d.1 in
    (
      (
        ground (
          arith,
          d.0,
          any-append (has_id x.run_id) before after,
          any-append (has_id x.run_id) before (r ∷ after),
        ),
        rest,
      ),
      ground (arith, d.0, gone, any-append (has_id x.run_id) before (r ∷ after)),
    )

module _ {ℓ} (P : RunState → Type ℓ) where
  pub All-remove :
      (before : List RunState) (r : RunState) (after : List RunState)
      → All P (before ++ (r ∷ after))
      → P r × All P (before ++ after)
  All-remove [] r after h = h
  All-remove (x ∷ before) r after h =
      let (at, rest) = All-remove before r after h.1 in (at, (h.0, rest))

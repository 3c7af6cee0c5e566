-- ===== src/Base/Search.antt =====
-- What `extract` (`position`, then `remove`) finds, as a view of its result.
use mathlib.Core.Path.{◌≡◌, refl, ap}
use mathlib.Core.Bool.{Bool, true, false}
use mathlib.Core.List.{List, [], ◌∷◌, ◌++◌}
use mathlib.Core.Option.{Option, none, some}
use native.Mathlib.Omega.{arith}
use gcit.Base.Tests.{if◌then◌else◌}
use gcit.Base.Lists.{any, extract, push_front}

module _ {ℓ} {A : Type ℓ} where
  -- Either no element passes the test, or the first one that does has been taken out.
  pub data Extract (p : A → Bool) (xs : List A) : Option (A × List A) → Type ℓ where
    absent : any p xs ≡ false → Extract p xs none
    found :
        (before : List A) (x : A) (after : List A)
        → any p before ≡ false
        → p x ≡ true
        → xs ≡ before ++ (x ∷ after)
        → Extract p xs (some (x, before ++ after))

  Extract-cons :
      (p : A → Bool) (x : A) (xs : List A) (o : Option (A × List A))
      → p x ≡ false
      → Extract p xs o
      → Extract p (x ∷ xs) (push_front x o)
  unfolding any
  Extract-cons p x xs none fails (absent h) = absent (ground (arith, h))
  Extract-cons p x xs (some _) fails (found before y after clear passes e) =
      found (x ∷ before) y after (ground (arith, clear)) passes (ap (λ l. x ∷ l) e)

  pub extract-Extract : (p : A → Bool) (xs : List A) → Extract p xs (extract p xs)
  unfolding extract any
  extract-Extract p [] = absent refl
  extract-Extract p (x ∷ xs) =
      elim (p x)
          as (λ b.
            p x ≡ b
            → Extract p (x ∷ xs) (if b then some (x, xs) else push_front x (extract p xs))) [
              | true ↦ λ passes. found [] x xs refl passes refl
              | false ↦ λ fails. Extract-cons p x xs (extract p xs) fails (extract-Extract p xs)
            ]
        refl

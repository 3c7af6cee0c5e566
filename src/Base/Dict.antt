-- ===== src/Base/Dict.antt =====
-- `BTreeMap<String, V>` and `BTreeSet<String>`: the operations that the program makes on its maps,
-- each with the law that says what every key holds afterwards. The order of the keys is left out.
use Prim.Native.String.{String}
use mathlib.Core.Path.{◌≡◌}
use mathlib.Core.Bool.{Bool, not}
use mathlib.Core.Option.{Option, none, some}
use mathlib.Core.List.{List, [], ◌∷◌}
use native.Mathlib.Omega.{arith}
use text.Mathlib.Text.{◌==◌ as str_eq}
use text.Mathlib.TextEquality.{eq_iff}
use gcit.Base.Tests.{if◌then◌else◌, unwrap_or, is_some}
use gcit.Base.Lists.{filter}

pub record Entry {ℓ} (V : Type ℓ) : Type ℓ where
  pub key : String
  pub value : V

abbrev pub Dict {ℓ} : Type ℓ → Type ℓ
Dict V = List (Entry V)

module _ {ℓ} {V : Type ℓ} where
  unfoldable pub lookup : String → Dict V → Option V
  lookup k [] = none
  lookup k (e ∷ m) = if str_eq e.key k then some e.value else lookup k m

  unfoldable pub remove : String → Dict V → Dict V
  remove k = filter (λ e. not (str_eq e.key k))

  unfoldable pub insert : String → V → Dict V → Dict V
  insert k v m = record { key = k; value = v } ∷ remove k m

  unfoldable pub contains_key : String → Dict V → Bool
  contains_key k m = is_some (lookup k m)

  pub lookup-remove :
      (k j : String) (m : Dict V)
      → lookup j (remove k m) ≡ (if str_eq k j then none else lookup j m)
  unfolding lookup remove filter
  lookup-remove k j [] = ground arith
  lookup-remove k j (e ∷ m) =
      ground (arith, eq_iff k j, eq_iff e.key k, eq_iff e.key j, lookup-remove k j m)

  pub lookup-insert :
      (k j : String) (v : V) (m : Dict V)
      → lookup j (insert k v m) ≡ (if str_eq k j then some v else lookup j m)
  unfolding lookup insert
  lookup-insert k j v m = ground (arith, lookup-remove k j m)

  -- `f(m.entry(k).or_insert(d))`: the entry is created where it is missing.
  unfoldable pub modify_or : V → (V → V) → String → Dict V → Dict V
  modify_or d f k m = insert k (f (unwrap_or (lookup k m) d)) m

  pub lookup-modify_or :
      (d : V) (f : V → V) (k j : String) (m : Dict V)
      → lookup j (modify_or d f k m)
        ≡ (if str_eq k j then some (f (unwrap_or (lookup k m) d)) else lookup j m)
  unfolding modify_or
  lookup-modify_or d f k j m = lookup-insert k j _ m

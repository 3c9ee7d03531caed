-- ===== src/Base/Dicts.antt =====
-- Python's `dict` with string keys, as a list of entries in insertion order: a key that is present
-- keeps its place when it is written again.
use Prim.Native.String.{String}
use mathlib.Core.Path.{◌≡◌, refl}
use mathlib.Core.Option.{Option, none, some}
use mathlib.Core.List.{List, [], ◌∷◌}
use native.Mathlib.Omega.{arith}
use text.Mathlib.Text.{◌==◌ as str_eq}
use text.Mathlib.TextEquality.{eq_iff}
use gektor.Base.Tests.{if◌then◌else◌}

abbrev pub Dict {ℓ} : Type ℓ → Type ℓ
Dict V = List (String × V)

module _ {ℓ} {V : Type ℓ} where
  -- d.get(key)
  unfoldable pub lookup : String → Dict V → Option V
  lookup key [] = none
  lookup key ((name, value) ∷ rest) =
      let later = lookup key rest in if str_eq name key then some value else later

  -- d[key] = value
  unfoldable pub insert : String → V → Dict V → Dict V
  insert key value [] = (key, value) ∷ []
  insert key value ((name, old) ∷ rest) =
      let later = insert key value rest in
      if str_eq name key then (name, value) ∷ rest else (name, old) ∷ later

  -- d.pop(k, None), for a dict with no key listed twice
  unfoldable pub erase : String → Dict V → Dict V
  erase k [] = []
  erase k ((j, w) ∷ m) = let rest = erase k m in if str_eq j k then m else (j, w) ∷ rest

  -- No key is listed twice.
  abbrev pub IsDict : Dict V → Type ℓ
  IsDict [] = Unit
  IsDict ((k, v) ∷ m) = (lookup k m ≡ none) × IsDict m

  pub lookup-insert :
      (key other : String) (value : V) (dict : Dict V)
      → lookup other (insert key value dict)
        ≡ (if str_eq key other then some value else lookup other dict)
  unfolding lookup insert
  lookup-insert key other value [] = refl
  lookup-insert key other value ((name, old) ∷ rest) = ground (
    arith,
    lookup-insert key other value rest,
    eq_iff name key,
    eq_iff name other,
    eq_iff key other,
  )

  pub lookup-erase :
      (k j : String) (m : Dict V)
      → IsDict m
      → lookup j (erase k m) ≡ (if str_eq k j then none else lookup j m)
  unfolding lookup erase
  lookup-erase k j [] d = ground arith
  lookup-erase k j ((i, w) ∷ m) d =
      ground (arith, eq_iff k j, eq_iff i k, eq_iff i j, lookup-erase k j m d.1)

module _ {ℓ} {V : Type ℓ} where
  pub insert-IsDict : (k : String) (v : V) (m : Dict V) → IsDict m → IsDict (insert k v m)
  unfolding lookup insert
  insert-IsDict k v [] d = (refl, tt)
  insert-IsDict k v ((i, w) ∷ m) d =
      ground (arith, eq_iff i k, eq_iff k i, insert-IsDict k v m d.1, lookup-insert k i v m)

  pub erase-IsDict : (k : String) (m : Dict V) → IsDict m → IsDict (erase k m)
  unfolding lookup erase
  erase-IsDict k [] d = d
  erase-IsDict k ((i, w) ∷ m) d =
      ground (arith, eq_iff i k, eq_iff k i, erase-IsDict k m d.1, lookup-erase k i m d.1)

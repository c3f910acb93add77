-- ===== src/Common/Maps.antt =====
-- Ordered maps keyed by numbers, as association lists in the order of their keys.
use Prim.Native.Nat.{ℕ, ◌≤◌, ◌<◌}
use mathlib.Core.Path.{◌≡◌, refl, ap}
use mathlib.Core.Bool.{false, ◌||◌, ◌&&◌, not}
use mathlib.Core.List.{List, [], ◌∷◌}
use mathlib.Core.Option.{Option, none, some}
use native.Mathlib.Omega.{arith}
use mr_crabs.Common.Tests.{◌==◌, ltb, if◌then◌else◌}
use mr_crabs.Common.Lists.{contains, Distinct, erase, contains-erase}

abbrev pub Above : ℕ → List ℕ → Type 0
Above j [] = Unit
Above j (k ∷ _) = j < k

abbrev pub Rising : List ℕ → Type 0
Rising [] = Unit
Rising (j ∷ ks) = Above j ks × Rising ks

below_not_contains :
    (j a : ℕ) (ks : List ℕ) → a ≤ j → Above j ks → Rising ks → contains ks a ≡ false
below_not_contains j a [] h b o = refl
below_not_contains j a (k ∷ ks) h b o =
    ground (arith, below_not_contains k a ks (omega arith) o.0 o.1)

pub Distinct-of_Rising : (ks : List ℕ) → Rising ks → Distinct ks
Distinct-of_Rising [] o = tt
Distinct-of_Rising (k ∷ ks) o =
    (below_not_contains k k ks (omega arith) o.0 o.1, Distinct-of_Rising ks o.1)

module _ {ℓ} {V : Type ℓ} where
  -- A key that is there keeps its place and takes the new value.
  abbrev pub insert : ℕ → V → List (ℕ × V) → List (ℕ × V)
  insert k v [] = (k, v) ∷ []
  insert k v ((j, w) ∷ m) =
      if j == k then (k, v) ∷ m else if ltb k j then (k, v) ∷ (j, w) ∷ m else (j, w) ∷ insert k v m

  abbrev pub lookup : ℕ → List (ℕ × V) → Option V
  lookup k [] = none
  lookup k ((j, w) ∷ m) = if j == k then some w else lookup k m

  abbrev pub remove_key : ℕ → List (ℕ × V) → List (ℕ × V)
  remove_key k [] = []
  remove_key k ((j, w) ∷ m) = if j == k then m else (j, w) ∷ remove_key k m

  abbrev pub keys : List (ℕ × V) → List ℕ
  keys [] = []
  keys ((j, _) ∷ m) = j ∷ keys m

  pub contains-keys-insert :
      (a k : ℕ) (v : V) (m : List (ℕ × V))
      → contains (keys (insert k v m)) a ≡ (contains (keys m) a || (k == a))
  contains-keys-insert a k v [] = ground arith
  contains-keys-insert a k v ((j, w) ∷ m) = ground (arith, contains-keys-insert a k v m)

  pub lookup-insert :
      (a k : ℕ) (v : V) (m : List (ℕ × V))
      → lookup a (insert k v m) ≡ (if k == a then some v else lookup a m)
  lookup-insert a k v [] = refl
  lookup-insert a k v ((j, w) ∷ m) = ground (arith, lookup-insert a k v m)

  -- The keys rise along the map.
  abbrev pub IsOrdered : List (ℕ × V) → Type 0
  IsOrdered m = Rising (keys m)

  Above-insert :
      (j k : ℕ) (v : V) (m : List (ℕ × V))
      → j < k
      → Above j (keys m)
      → Above j (keys (insert k v m))
  Above-insert j k v [] h a = h
  Above-insert j k v ((i, w) ∷ m) h a = ground arith

  pub insert-IsOrdered : (k : ℕ) (v : V) (m : List (ℕ × V)) → IsOrdered m → IsOrdered (insert k v m)
  insert-IsOrdered k v [] o = (tt, tt)
  insert-IsOrdered k v ((j, w) ∷ m) o =
      ground (arith, insert-IsOrdered k v m o.1, Above-insert j k v m)

  keys-remove_key : (k : ℕ) (m : List (ℕ × V)) → keys (remove_key k m) ≡ erase k (keys m)
  keys-remove_key k [] = refl
  keys-remove_key k ((j, w) ∷ m) = ground (arith, keys-remove_key k m)

  pub contains-keys-remove_key :
      (a k : ℕ) (m : List (ℕ × V))
      → IsOrdered m
      → contains (keys (remove_key k m)) a ≡ (contains (keys m) a && not (k == a))
  contains-keys-remove_key a k m o =
      rw keys-remove_key (contains-erase k a (keys m) (Distinct-of_Rising (keys m) o))

  Above-remove_key :
      (j k : ℕ) (m : List (ℕ × V))
      → Above j (keys m)
      → IsOrdered m
      → Above j (keys (remove_key k m))
  Above-remove_key j k [] a o = tt
  Above-remove_key j k ((i, w) ∷ []) a o = ground arith
  Above-remove_key j k ((i, w) ∷ (i', w') ∷ m) a o = ground arith

  pub remove_key-IsOrdered : (k : ℕ) (m : List (ℕ × V)) → IsOrdered m → IsOrdered (remove_key k m)
  remove_key-IsOrdered k [] o = tt
  remove_key-IsOrdered k ((j, w) ∷ m) o =
      ground (arith, remove_key-IsOrdered k m o.1, Above-remove_key j k m o.0 o.1)

  -- `update k g m` is `if let Some(v) = m.get_mut(&k) { g(v) }`.
  abbrev pub update : ℕ → (V → V) → List (ℕ × V) → List (ℕ × V)
  update k g [] = []
  update k g ((j, v) ∷ m) = if j == k then (j, g v) ∷ m else (j, v) ∷ update k g m

  -- `map_values g m` is `for v in m.values_mut() { g(v) }`.
  abbrev pub map_values : (V → V) → List (ℕ × V) → List (ℕ × V)
  map_values g [] = []
  map_values g ((j, v) ∷ m) = (j, g v) ∷ map_values g m

  pub keys-update : (k : ℕ) (g : V → V) (m : List (ℕ × V)) → keys (update k g m) ≡ keys m
  keys-update k g [] = refl
  keys-update k g ((j, v) ∷ m) = ground (arith, keys-update k g m)

  pub keys-map_values : (g : V → V) (m : List (ℕ × V)) → keys (map_values g m) ≡ keys m
  keys-map_values g [] = refl
  keys-map_values g ((j, v) ∷ m) = ap (j ∷◌) (keys-map_values g m)

  pub lookup-update_self :
      (k : ℕ) (g : V → V) (m : List (ℕ × V)) (v : V)
      → lookup k m ≡ some v
      → lookup k (update k g m) ≡ some (g v)
  lookup-update_self k g [] v h = cc
  lookup-update_self k g ((j, w) ∷ m) v h = ground (arith, lookup-update_self k g m v)

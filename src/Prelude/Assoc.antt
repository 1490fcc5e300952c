-- ===== src/Prelude/Assoc.antt =====
-- `HashMap` and `DashMap` as association lists over any key type with a test of equality.
use Prim.Native.Nat.{ℕ, ◌≤◌}
use Prim.Native.String.{String}
use text.Mathlib.Text.{◌==◌ as str_eq}
use text.Mathlib.TextEquality.{eq_iff}
use mathlib.Core.Path.{◌≡◌}
use mathlib.Core.Logic.{◌↔◌}
use mathlib.Core.Bool.{Bool, true}
use mathlib.Core.Option.{Option, none, some}
use mathlib.Core.List.{List, [], ◌∷◌}
use native.Mathlib.Omega.{arith}
use lan_video.Prelude.Tests.{◌==◌ as nat_eq, ==_iff, if◌then◌else◌}
use lan_video.Prelude.Lists.{length}

pub record Eq {ℓ} (A : Type ℓ) : Type ℓ where
  pub beq : A → A → Bool
  pub beq_iff : (a b : A) → (beq a b ≡ true) ↔ (a ≡ b)

infix 50 ◌=?◌
abbrev pub ◌=?◌ {ℓ} : {A : Type ℓ} ⦃e : Eq A⦄ → A → A → Bool
◌=?◌ ⦃e⦄ = e.beq

instance abbrev pub nat_Eq : Eq ℕ
nat_Eq = record { beq = nat_eq; beq_iff = ==_iff }

instance abbrev pub string_Eq : Eq String
string_Eq = record { beq = str_eq; beq_iff = eq_iff }

-- `Option::filter`.
abbrev pub filter {ℓ} : {V : Type ℓ} → (V → Bool) → Option V → Option V
filter p none = none
filter p (some v) = if p v then some v else none

module _ {ℓ κ} {K : Type ℓ} {V : Type κ} ⦃e : Eq K⦄ where
  unfoldable pub lookup : K → List (K × V) → Option V
  lookup k [] = none
  lookup k ((j, v) ∷ m) = if j =? k then some v else lookup k m

  unfoldable pub remove : K → List (K × V) → List (K × V)
  remove k [] = []
  remove k ((j, v) ∷ m) = if j =? k then remove k m else (j, v) ∷ remove k m

  -- The old entry of the key, if any, is gone.
  unfoldable pub insert : K → V → List (K × V) → List (K × V)
  unfolding remove
  insert k v m = (k, v) ∷ remove k m

  pub lookup-remove :
      (k j : K) (m : List (K × V)) → lookup j (remove k m) ≡ (if k =? j then none else lookup j m)
  unfolding lookup remove
  lookup-remove k j [] = ground arith
  lookup-remove k j ((i, w) ∷ m) =
      ground (arith, e.beq_iff k j, e.beq_iff i k, e.beq_iff i j, lookup-remove k j m)

  pub lookup-insert :
      (k j : K) (v : V) (m : List (K × V))
      → lookup j (insert k v m) ≡ (if k =? j then some v else lookup j m)
  unfolding lookup insert
  lookup-insert k j v m = ground (arith, lookup-remove k j m)

  pub length-remove : (k : K) (m : List (K × V)) → length (remove k m) ≤ length m
  unfolding remove
  length-remove k [] = omega arith
  length-remove k ((j, v) ∷ m) = ground (arith, length-remove k m)

  -- `retain`. An entry that goes takes along whatever stands behind it under its key.
  unfoldable pub retain : (V → Bool) → List (K × V) → List (K × V)
  unfolding remove
  retain p [] = []
  retain p ((k, v) ∷ m) = let rest = retain p m in if p v then (k, v) ∷ rest else remove k rest

  pub lookup-retain :
      (p : V → Bool) (j : K) (m : List (K × V)) → lookup j (retain p m) ≡ filter p (lookup j m)
  unfolding lookup retain
  lookup-retain p j [] = ground arith
  lookup-retain p j ((i, w) ∷ m) =
      ground (arith, lookup-remove i j (retain p m), lookup-retain p j m)

  pub length-retain : (p : V → Bool) (m : List (K × V)) → length (retain p m) ≤ length m
  unfolding retain
  length-retain p [] = omega arith
  length-retain p ((k, v) ∷ m) = ground (arith, length-retain p m, length-remove k (retain p m))

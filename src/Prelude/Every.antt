-- ===== src/Prelude/Every.antt =====
-- What holds of every entry of an association list.
use mathlib.Core.Path.{◌≡◌, subst, sym, ◌∙◌}
use mathlib.Core.Logic.{inl, inr}
use mathlib.Core.Bool.{Bool}
use mathlib.Core.Option.{Option, none, some}
use mathlib.Core.List.{List}
use lan_video.Prelude.Tests.{Bool-cases, some-injective}
use lan_video.Prelude.Assoc.{
  Eq, ◌=?◌, lookup, remove, insert, retain, filter, lookup-insert, lookup-remove, lookup-retain,
}

filter-some {ℓ} :
    {V : Type ℓ} (p : V → Bool) (o : Option V) (v : V) → filter p o ≡ some v → o ≡ some v
filter-some p none v h = absurd (cc h)
filter-some p (some w) v h = elim (Bool-cases (p w)) [
  | inl e ↦ rw e at h
  | inr e ↦ absurd (let n = rw e at h in cc n)
]

module _ {ℓ κ λ'} {K : Type ℓ} {V : Type κ} ⦃eq : Eq K⦄ (P : K → V → Type λ') where
  abbrev pub Every : List (K × V) → Type (ℓ ⊔ κ ⊔ λ')
  Every m = (k : K) (v : V) → lookup k m ≡ some v → P k v

  pub Every-remove : (k : K) (m : List (K × V)) → Every m → Every (remove k m)
  Every-remove k m a j v h =
      let h' = sym (lookup-remove k j m) ∙ h in
      elim (Bool-cases (k =? j)) [
        | inl e ↦ absurd (let n = rw e at h' in cc n)
        | inr e ↦ a j v (rw e at h')
      ]

  pub Every-insert : (k : K) (v : V) (m : List (K × V)) → Every m → P k v → Every (insert k v m)
  Every-insert k v m a p j w h =
      let h' = sym (lookup-insert k j v m) ∙ h in
      elim (Bool-cases (k =? j)) [
        | inl e ↦
            subst (P j) (some-injective (rw e at h')) (subst (λ x. P x v) ((eq.beq_iff k j).0 e) p)
        | inr e ↦ a j w (rw e at h')
      ]

  pub Every-retain : (p : V → Bool) (m : List (K × V)) → Every m → Every (retain p m)
  Every-retain p m a j v h = a j v (filter-some p (lookup j m) v (sym (lookup-retain p j m) ∙ h))

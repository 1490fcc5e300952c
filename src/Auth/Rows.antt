-- ===== src/Auth/Rows.antt =====
-- What holds of every row of a table.
use lan_video.Prelude.{◌≡◌, Bool, false, List, [], ◌∷◌, map, any, retain, Bool-cases, inl, inr}

module _ {ℓ} {A : Type ℓ} where
  abbrev pub All {κ} : (A → Type κ) → List A → Type κ
  All P [] = Unit
  All P (x ∷ xs) = P x × All P xs

  pub All-map {κ} :
      (P : A → Type κ) (f : A → A) (xs : List A)
      → ((x : A) → P x → P (f x))
      → All P xs
      → All P (map f xs)
  All-map P f [] h a = tt
  All-map P f (x ∷ xs) h (p, ps) = (h x p, All-map P f xs h ps)

  pub All-retain {κ} :
      (P : A → Type κ) (q : A → Bool) (xs : List A) → All P xs → All P (retain q xs)
  unfolding retain
  All-retain P q [] a = tt
  All-retain P q (x ∷ xs) (p, ps) = elim (Bool-cases (q x)) [
    | inl e ↦ rw e (p, All-retain P q xs ps)
    | inr e ↦ rw e (All-retain P q xs ps)
  ]

  pub All-mono {κ λ'} :
      (P : A → Type κ) (Q : A → Type λ') (xs : List A) → ((x : A) → P x → Q x) → All P xs → All Q xs
  All-mono P Q [] h a = tt
  All-mono P Q (x ∷ xs) h (p, ps) = (h x p, All-mono P Q xs h ps)

  -- From a test that no row passes.
  pub none-All : (q : A → Bool) (xs : List A) → any q xs ≡ false → All (λ x. q x ≡ false) xs
  unfolding any
  none-All q [] h = tt
  none-All q (x ∷ xs) h = elim (Bool-cases (q x)) [
    | inl e ↦ absurd (let n = rw e at h in cc n)
    | inr e ↦ (e, none-All q xs (rw e at h))
  ]

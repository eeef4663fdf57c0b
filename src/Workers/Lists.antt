-- ===== src/Workers/Lists.antt =====
-- Lists of workers: those of a given length, and the change of one of them.
use spinet.Common.{ℕ, zero, suc, ◌≡◌, refl, ap, List, [], ◌∷◌, length, All}

module _ {ℓ} {A : Type ℓ} where
  abbrev pub replicate : ℕ → A → List A
  replicate zero a = []
  replicate (suc n) a = a ∷ replicate n a

  -- The list with the element at a place changed; no place, no change.
  abbrev pub modify : (A → A) → List A → ℕ → List A
  modify f [] i = []
  modify f (x ∷ xs) zero = f x ∷ xs
  modify f (x ∷ xs) (suc i) = x ∷ modify f xs i

  pub length-replicate : (n : ℕ) (a : A) → length (replicate n a) ≡ n
  length-replicate zero a = refl
  length-replicate (suc n) a = ap suc (length-replicate n a)

  pub length-modify : (f : A → A) (xs : List A) (i : ℕ) → length (modify f xs i) ≡ length xs
  length-modify f [] i = refl
  length-modify f (x ∷ xs) zero = refl
  length-modify f (x ∷ xs) (suc i) = ap suc (length-modify f xs i)

  pub All-replicate {κ} : (P : A → Type κ) (n : ℕ) (a : A) → P a → All P (replicate n a)
  All-replicate P zero a h = tt
  All-replicate P (suc n) a h = (h, All-replicate P n a h)

  pub All-modify {κ} :
      (P : A → Type κ) (f : A → A) (xs : List A) (i : ℕ)
      → ((a : A) → P a → P (f a))
      → All P xs
      → All P (modify f xs i)
  All-modify P f [] i keep h = tt
  All-modify P f (x ∷ xs) zero keep h = (keep x h.0, h.1)
  All-modify P f (x ∷ xs) (suc i) keep h = (h.0, All-modify P f xs i keep h.1)

-- ===== src/Runtime/Orphans.antt =====
-- The handles that a `Runtime` (src/core/runtime.cpp) has the last pointers to, and how many descriptors their
-- destructors close.
use spinet.Common.{
  ℕ, ◌+◌, ◌≡◌, refl, subst, ap, ap₂, Bool, true, false, not, ◌&&◌, ◌||◌, List, [], ◌∷◌, ◌++◌, ◌==◌,
  inl, inr, arith, if_cases, Bool-cases,
}
use spinet.Runtime.Interface.{In}
use spinet.Runtime.Store.{Objects, open_at}
use spinet.Runtime.{Fate, held, dropped, occurs, orphans}
use spinet.Runtime.Unlinked.{count}

-- Whether the descriptor of a handle is closed behind its fate, where `b` tells if it was an open socket.
abbrev pub closes_fd : Fate → (b : Bool) → Bool
closes_fd held b = false
closes_fd (dropped spurious) b = not spurious && b

-- Lists without a handle that stands in them twice.
unfoldable pub Distinct : List ℕ → Type 0
Distinct [] = Unit {0}
Distinct (p ∷ ps) = (occurs p ps ≡ false) × Distinct ps

pub occurs-append : (p : ℕ) (xs ys : List ℕ) → occurs p (xs ++ ys) ≡ (occurs p xs || occurs p ys)
unfolding occurs
occurs-append p [] ys = refl
occurs-append p (x ∷ xs) ys = ground (arith, occurs-append p xs ys)

pub In-occurs : (p : ℕ) (ps : List ℕ) → occurs p ps ≡ true → In p ps
unfolding occurs
In-occurs p [] h = absurd (ground arith)
In-occurs p (q ∷ ps) h = elim (Bool-cases (q == p)) [
  | inl t ↦ inl (ground arith)
  | inr n ↦ inr (In-occurs p ps (ground arith))
]

pub occurs-In : (p : ℕ) (ps : List ℕ) → In p ps → occurs p ps ≡ true
unfolding occurs
occurs-In p [] h = absurd h
occurs-In p (q ∷ ps) (inl e) = ground arith
occurs-In p (q ∷ ps) (inr i) = ground (arith, occurs-In p ps i)

pub occurs-orphans :
    (owned : ℕ → Bool) (p : ℕ) (ps : List ℕ)
    → occurs p (orphans owned ps) ≡ (occurs p ps && not (owned p))
unfolding occurs orphans
occurs-orphans owned p [] = refl
occurs-orphans owned p (q ∷ ps) =
    if_cases (λ (l : List ℕ). occurs p l ≡ (((q == p) || occurs p ps) && not (owned p)))
      (owned q || occurs q ps)
      (λ t. elim (Bool-cases (q == p)) [
        | inl same ↦ passed (occurs-orphans owned p ps) (ground arith) same t
        | inr other ↦ ground (arith, occurs-orphans owned p ps, other)
      ])
      (λ n. elim (Bool-cases (q == p)) [
        | inl same ↦ kept (ground arith) same n
        | inr other ↦ ground (arith, occurs-orphans owned p ps, other)
      ])
  where
    passed :
        occurs p (orphans owned ps) ≡ (occurs p ps && not (owned p))
        → q ≡ p
        → (q == p) ≡ true
        → (owned q || occurs q ps) ≡ true
        → occurs p (orphans owned ps) ≡ (((q == p) || occurs p ps) && not (owned p))
    passed ih e same t = ground (arith, ih, same, subst (λ x. (owned x || occurs x ps) ≡ true) e t)

    kept :
        q ≡ p
        → (q == p) ≡ true
        → (owned q || occurs q ps) ≡ false
        → ((q == p) || occurs p (orphans owned ps)) ≡ (((q == p) || occurs p ps) && not (owned p))
    kept e same n = ground (arith, same, subst (λ x. (owned x || occurs x ps) ≡ false) e n)

pub orphans-Distinct : (owned : ℕ → Bool) (ps : List ℕ) → Distinct (orphans owned ps)
unfolding orphans Distinct
orphans-Distinct owned [] = tt
orphans-Distinct owned (p ∷ ps) =
    if_cases Distinct (owned p || occurs p ps) (λ _. orphans-Distinct owned ps)
      (λ n. (ground (arith, occurs-orphans owned p ps), orphans-Distinct owned ps))

pub Distinct-append :
    (xs ys : List ℕ)
    → Distinct xs
    → Distinct ys
    → ((p : ℕ) → occurs p xs ≡ true → occurs p ys ≡ false)
    → Distinct (xs ++ ys)
unfolding Distinct occurs
Distinct-append [] ys hx hy apart = hy
Distinct-append (x ∷ xs) ys hx hy apart = (
  ground (arith, occurs-append x xs ys, hx.0, apart x),
  Distinct-append xs ys hx.1 hy (λ p h. apart p (ground arith)),
)

-- How many descriptors are closed if these handles are destroyed.
unfoldable pub to_close : (fates : ℕ → Fate) → Objects → List ℕ → ℕ
to_close fates objects [] = 0
to_close fates objects (p ∷ ps) =
    count (closes_fd (fates p) (open_at objects p)) + to_close fates objects ps

pub to_close-same :
    (fates : ℕ → Fate) (objects objects' : Objects) (ps : List ℕ)
    → ((q : ℕ) → occurs q ps ≡ true → open_at objects' q ≡ open_at objects q)
    → to_close fates objects' ps ≡ to_close fates objects ps
unfolding to_close occurs
to_close-same fates objects objects' [] same = refl
to_close-same fates objects objects' (p ∷ ps) same =
    ap₂ ◌+◌ (ap (λ b. count (closes_fd (fates p) b)) (same p (ground arith)))
      (to_close-same fates objects objects' ps (λ q h. same q (ground arith)))

pub to_close-append :
    (fates : ℕ → Fate) (objects : Objects) (xs ys : List ℕ)
    → to_close fates objects (xs ++ ys) ≡ to_close fates objects xs + to_close fates objects ys
unfolding to_close
to_close-append fates objects [] ys = omega arith
to_close-append fates objects (x ∷ xs) ys = omega (arith, to_close-append fates objects xs ys)

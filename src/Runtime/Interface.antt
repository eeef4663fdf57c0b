-- ===== src/Runtime/Interface.antt =====
-- The maps and sets of `Runtime` (src/core/runtime.h), which are those of the library robin-map, with
-- what it documents of the calls that the runtime makes.
use spinet.Common.{
  ℕ, suc, ◌≡◌, Bool, true, false, Option, none, some, List, [], ◌∷◌, ◌==◌, if◌then◌else◌, ◌⊎◌,
}

-- That a list has an element.
abbrev pub In : {A : Type 0} → A → List A → Type 0
In a [] = ⊥
In a (x ∷ xs) = (x ≡ a) ⊎ In a xs

-- `Map<int, std::shared_ptr<Handle>>` and `Set<BaseSocket*>`. `assign` is an assignment to the value
-- at an iterator, and `has` tells what a set holds.
pub record Containers : Type 1 where
  pub Map : Type 0
  pub Set : Type 0
  pub map_empty : Map
  pub find : Map → ℕ → Option ℕ
  pub insert : Map → ℕ → ℕ → Map
  pub assign : Map → ℕ → ℕ → Map
  pub erase : Map → ℕ → Map
  pub size : Map → ℕ
  pub entries : Map → List (ℕ × ℕ)
  pub set_empty : Set
  pub elements : Set → List ℕ
  pub has : Set → ℕ → Bool
  pub set_insert : Set → ℕ → Set
  pub set_erase : Set → ℕ → Set
  pub find-empty : (k : ℕ) → find map_empty k ≡ none
  pub find-insert :
      (m : Map) (k v j : ℕ)
      → find m k ≡ none
      → find (insert m k v) j ≡ (if k == j then some v else find m j)
  pub find-assign :
      (m : Map) (k v j u : ℕ)
      → find m k ≡ some u
      → find (assign m k v) j ≡ (if k == j then some v else find m j)
  pub find-erase : (m : Map) (k j : ℕ) → find (erase m k) j ≡ (if k == j then none else find m j)
  pub size-insert : (m : Map) (k v : ℕ) → find m k ≡ none → size (insert m k v) ≡ suc (size m)
  pub size-assign : (m : Map) (k v u : ℕ) → find m k ≡ some u → size (assign m k v) ≡ size m
  pub size-erase : (m : Map) (k u : ℕ) → find m k ≡ some u → suc (size (erase m k)) ≡ size m
  pub in-entries : (m : Map) (k v : ℕ) → find m k ≡ some v → In (k, v) (entries m)
  pub has-empty : (p : ℕ) → has set_empty p ≡ false
  pub has-insert : (s : Set) (p q : ℕ) → has (set_insert s p) q ≡ (if p == q then true else has s q)
  pub has-erase : (s : Set) (p q : ℕ) → has (set_erase s p) q ≡ (if p == q then false else has s q)
  pub elements-has : (s : Set) (p : ℕ) → In p (elements s) → has s p ≡ true
  pub has-elements : (s : Set) (p : ℕ) → has s p ≡ true → In p (elements s)

-- ===== src/Runtime/Tables.antt =====
-- Maps and sets as lists, for the tests: the newest entry of a key counts.
use spinet.Common.{
  ℕ, suc, ◌≡◌, refl, Bool, true, false, Option, none, some, List, [], ◌∷◌, ◌==◌, if◌then◌else◌, inl,
  inr, arith, Bool-cases, Option-cases,
}
use spinet.Runtime.Interface.{Containers, In}

abbrev Table : Type 0
Table = List (ℕ × ℕ)

abbrev lookup : Table → ℕ → Option ℕ
lookup [] j = none
lookup ((k, v) ∷ m) j = if k == j then some v else lookup m j

abbrev without : Table → ℕ → Table
without [] j = []
without ((k, v) ∷ m) j = if k == j then without m j else (k, v) ∷ without m j

abbrev is_some : Option ℕ → Bool
is_some none = false
is_some (some v) = true

abbrev count : Table → ℕ
count [] = 0
count ((k, v) ∷ m) = if is_some (lookup m k) then count m else suc (count m)

pub lookup-without :
    (m : Table) (k j : ℕ) → lookup (without m k) j ≡ (if k == j then none else lookup m j)
lookup-without [] k j = ground arith
lookup-without ((i, v) ∷ m) k j = ground (arith, lookup-without m k j)

without-absent : (m : Table) (k : ℕ) → lookup m k ≡ none → without m k ≡ m
without-absent [] k h = refl
without-absent ((i, v) ∷ m) k h = ground (arith, without-absent m k)

pub count-without :
    (m : Table) (k u : ℕ) → lookup m k ≡ some u → suc (count (without m k)) ≡ count m
count-without [] k u h = absurd (ground arith)
count-without ((i, v) ∷ m) k u h = elim (Option-cases (lookup m k)) [
  | inl e ↦ ground (arith, without-absent m k e, lookup-without m k i)
  | inr (w, e) ↦ ground (arith, count-without m k w e, lookup-without m k i)
]

pub lookup-In : (m : Table) (k v : ℕ) → lookup m k ≡ some v → In (k, v) m
lookup-In [] k v h = absurd (ground arith)
lookup-In ((i, u) ∷ m) k v h = elim (Bool-cases (i == k)) [
  | inl t ↦ inl (ground arith)
  | inr f ↦ inr (lookup-In m k v (ground arith))
]

abbrev member : List ℕ → ℕ → Bool
member [] q = false
member (p ∷ s) q = if p == q then true else member s q

abbrev delete : List ℕ → ℕ → List ℕ
delete [] q = []
delete (p ∷ s) q = if p == q then delete s q else p ∷ delete s q

pub member-delete :
    (s : List ℕ) (p q : ℕ) → member (delete s p) q ≡ (if p == q then false else member s q)
member-delete [] p q = ground arith
member-delete (r ∷ s) p q = ground (arith, member-delete s p q)

pub count-fresh : (m : Table) (k v : ℕ) → lookup m k ≡ none → count ((k, v) ∷ m) ≡ suc (count m)
count-fresh m k v h = ground arith

pub count-known : (m : Table) (k v u : ℕ) → lookup m k ≡ some u → count ((k, v) ∷ m) ≡ count m
count-known m k v u h = ground arith

pub In-member : (s : List ℕ) (p : ℕ) → In p s → member s p ≡ true
In-member [] p i = absurd i
In-member (q ∷ s) p (inl e) = ground arith
In-member (q ∷ s) p (inr i) = ground (arith, In-member s p i)

pub member-In : (s : List ℕ) (p : ℕ) → member s p ≡ true → In p s
member-In [] p h = absurd (ground arith)
member-In (q ∷ s) p h = elim (Bool-cases (q == p)) [
  | inl t ↦ inl (ground arith)
  | inr f ↦ inr (member-In s p (ground arith))
]

abbrev pub tables : Containers
tables = record {
  Map = Table;
  Set = List ℕ;
  map_empty = [];
  find = lookup;
  insert = λ m k v. (k, v) ∷ m;
  assign = λ m k v. (k, v) ∷ m;
  erase = without;
  size = count;
  entries = λ m. m;
  elements = λ s. s;
  elements-has = In-member;
  has-elements = member-In;
  set_empty = [];
  has = member;
  set_insert = λ s p. p ∷ s;
  set_erase = delete;
  find-empty = λ k. refl;
  find-insert = λ m k v j h. refl;
  find-assign = λ m k v j u h. refl;
  find-erase = lookup-without;
  size-insert = count-fresh;
  size-assign = count-known;
  size-erase = count-without;
  in-entries = lookup-In;
  has-empty = λ p. refl;
  has-insert = λ s p q. refl;
  has-erase = member-delete;
}

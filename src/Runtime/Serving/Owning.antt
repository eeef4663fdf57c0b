-- ===== src/Runtime/Serving/Owning.antt =====
-- Which handles a `Runtime` (src/core/runtime.cpp) owns behind a registration.
use spinet.Common.{
  ◌≢◌, subst, ℕ, ◌≡◌, refl, ap, ◌∙◌, Bool, ◌⊎◌, inl, inr, Option, none, some, List, [], ◌∷◌, ◌++◌,
  ◌==◌, if◌then◌else◌, if_cases, Bool-cases, arith,
}
use spinet.Runtime.Interface.{Containers, In}
use spinet.Runtime.Store.{
  Objects, fd_of, runtime_of, set_runtime, fd_of-set_runtime, runtime_of-set_runtime,
}
use spinet.Runtime.{
  Runtime, insert_handle, retire_handle, replace_handle, enter_handle, register_handle,
  close_handle,
}
use spinet.Runtime.Consistency.{Frame}
use spinet.Runtime.Closing.{close_handle-Frame}

In-append_cases : (q p : ℕ) (ps : List ℕ) → In q (ps ++ p ∷ []) → In q ps ⊎ (p ≡ q)
In-append_cases q p [] (inl e) = inr e
In-append_cases q p [] (inr i) = absurd i
In-append_cases q p (r ∷ ps) (inl e) = inl (inl e)
In-append_cases q p (r ∷ ps) (inr i) = elim (In-append_cases q p ps i) [
  | inl j ↦ inl (inr j)
  | inr e ↦ inr e
]

module _ (c : Containers) where
  open c use {find, has}

  -- Registered handles are `p`, or were registered before.
  abbrev pub Older : ℕ → Runtime c → Runtime c → Type 0
  Older p rt rt' =
      (k q : ℕ) → find rt'.all_handles k ≡ some q → (q ≡ p) ⊎ (find rt.all_handles k ≡ some q)

  insert_handle-Older :
      (p : ℕ) (rt : Runtime c)
      → find rt.all_handles (fd_of rt.objects p) ≡ none
      → Older p rt (insert_handle c p rt)
  unfolding insert_handle
  insert_handle-Older p rt free k q h = elim (Bool-cases (fd_of rt.objects p == k)) [
    | inl t ↦ inl (ground (arith, c.find-insert rt.all_handles (fd_of rt.objects p) p k free))
    | inr n ↦ inr (ground (arith, c.find-insert rt.all_handles (fd_of rt.objects p) p k free))
  ]

  replace_handle-Older :
      (spurious : Bool) (p prev : ℕ) (rt : Runtime c)
      → find rt.all_handles (fd_of rt.objects p) ≡ some prev
      → Older p rt (replace_handle c p (retire_handle c spurious prev rt))
  unfolding replace_handle retire_handle
  replace_handle-Older spurious p prev rt there k q h =
      elim (Bool-cases (fd_of closed.objects p == k)) [
        | inl t ↦ inl (ground (arith, assigned))
        | inr n ↦ inr (ground (arith, assigned, f.same_handles k))
      ]
    where
      unlinked : Runtime c
      unlinked = record rt {
        removable_handles = rt.removable_handles ++ prev ∷ [];
        objects = set_runtime prev none rt.objects;
      }

      closed : Runtime c
      closed = close_handle c spurious prev unlinked

      f : Frame c unlinked closed
      f =
          close_handle-Frame c spurious prev unlinked
            (ground (arith, runtime_of-set_runtime prev none rt.objects prev))

      found : find closed.all_handles (fd_of closed.objects p) ≡ some prev
      found =
          ap (find closed.all_handles) (f.same_fd p ∙ fd_of-set_runtime prev none rt.objects p)
          ∙ f.same_handles (fd_of rt.objects p)
          ∙ there

      assigned :
          find (c.assign closed.all_handles (fd_of closed.objects p) p) k
          ≡ (if fd_of closed.objects p == k then some p else find closed.all_handles k)
      assigned = c.find-assign closed.all_handles (fd_of closed.objects p) p k prev found

  enter_handle-Older :
      (spurious : Bool) (p : ℕ) (rt : Runtime c) (o : Option ℕ)
      → find rt.all_handles (fd_of rt.objects p) ≡ o
      → Older p rt (enter_handle c spurious p o rt)
  unfolding enter_handle
  enter_handle-Older spurious p rt none e = insert_handle-Older p rt e
  enter_handle-Older spurious p rt (some prev) e = replace_handle-Older spurious p prev rt e

  pub register_handle-Older :
      (spurious : Bool) (p : ℕ) (rt : Runtime c) → Older p rt (register_handle c spurious p rt)
  unfolding register_handle
  register_handle-Older spurious p rt =
      if_cases (Older p rt) rt.locked (λ _ k q h. inr h)
        (λ _. enter_handle-Older spurious p _ (find rt.all_handles (fd_of linked p)) refl)
    where
      linked : Objects
      linked = set_runtime p (some rt.self) rt.objects

  -- Handles among the removed ones behind a registration of `p` are unlinked, and owned before.
  abbrev pub Retires : ℕ → Runtime c → Runtime c → Type 0
  Retires p rt rt' =
      (q : ℕ)
      → In q rt'.removable_handles
      → (runtime_of rt'.objects q ≡ none)
        × (In q rt.removable_handles ⊎ ((k : ℕ) × (find rt.all_handles k ≡ some q)))

  -- The handle `p` is not among the removed ones, which are unlinked.
  abbrev pub AllRetired : ℕ → Runtime c → Type 0
  AllRetired p rt = (q : ℕ) → In q rt.removable_handles → (runtime_of rt.objects q ≡ none) × (q ≢ p)

  enter_handle-Retires :
      (spurious : Bool) (p : ℕ) (rt : Runtime c) (o : Option ℕ)
      → AllRetired p rt
      → find rt.all_handles (fd_of rt.objects p) ≡ o
      → Retires p rt (enter_handle c spurious p o rt)
  unfolding enter_handle insert_handle replace_handle retire_handle
  enter_handle-Retires spurious p rt none old e q i = ((old q i).0, inl i)
  enter_handle-Retires spurious p rt (some prev) old e q i =
      elim (In-append_cases q prev rt.removable_handles (subst (In q) f.same_removable i)) [
        | inl before ↦ (
          f.same_runtime q
              ∙ ground (arith, runtime_of-set_runtime prev none rt.objects q, (old q before).0),
          inl before,
        )
        | inr now ↦ (
          f.same_runtime q ∙ ground (arith, runtime_of-set_runtime prev none rt.objects q, now),
          inr (
            fd_of rt.objects p,
            subst (λ x. find rt.all_handles (fd_of rt.objects p) ≡ some x) now e,
          ),
        )
      ]
    where
      unlinked : Runtime c
      unlinked = record rt {
        removable_handles = rt.removable_handles ++ prev ∷ [];
        objects = set_runtime prev none rt.objects;
      }

      f : Frame c unlinked (close_handle c spurious prev unlinked)
      f =
          close_handle-Frame c spurious prev unlinked
            (ground (arith, runtime_of-set_runtime prev none rt.objects prev))

  pub register_handle-Retires :
      (spurious : Bool) (p : ℕ) (rt : Runtime c)
      → AllRetired p rt
      → Retires p rt (register_handle c spurious p rt)
  unfolding register_handle
  register_handle-Retires spurious p rt old =
      if_cases (Retires p rt) rt.locked (λ _ q i. ((still q i).0, inl i))
        (λ _. enter_handle-Retires spurious p _ (find rt.all_handles (fd_of linked p)) still refl)
    where
      linked : Objects
      linked = set_runtime p (some rt.self) rt.objects

      still : AllRetired p (record rt { objects = linked })
      still q i = (
        ground
            (arith, runtime_of-set_runtime p (some rt.self) rt.objects q, (old q i).0, (old q i).1),
        (old q i).1,
      )

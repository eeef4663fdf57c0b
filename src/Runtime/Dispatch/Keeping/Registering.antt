-- ===== src/Runtime/Dispatch/Keeping/Registering.antt =====
-- `Runtime::register_handle` (src/core/runtime.cpp) frees no handle, also where it retires the one that had
-- the descriptor.
use spinet.Common.{
  ℕ, ◌≡◌, ◌≢◌, refl, sym, ap, subst, ◌∙◌, Bool, true, false, inl, inr, Option, none, some, [], ◌∷◌,
  ◌++◌, ◌==◌, if◌then◌else◌, arith, if_cases, Bool-cases,
}
use spinet.Runtime.Interface.{Containers, In}
use spinet.Runtime.Store.{
  Objects, fd_of, socket_at, set_runtime, fd_of-set_runtime, runtime_of-set_runtime,
  socket_at-set_runtime,
}
use spinet.Runtime.{
  Runtime, close_handle, insert_handle, retire_handle, replace_handle, enter_handle,
  register_handle,
}
use spinet.Runtime.Consistency.{Frame}
use spinet.Runtime.Closing.{close_handle-Frame}
use spinet.Runtime.Dispatch.Keeping.{IsSwept, Keeps, Keeps_trans, In-append, In-last}

module _ (c : Containers) where
  open c use {find, has}

  link-Keeps :
      (p : ℕ) (rt : Runtime c) (locked stuck : Bool)
      → Keeps c rt (record rt {
        objects = set_runtime p (some rt.self) rt.objects;
        locked = locked;
        stuck = stuck;
      })
  link-Keeps p rt locked stuck = record {
    alive = λ q a. elim a [
      | inl e ↦ inl (ground (arith, fd_of-set_runtime p (some rt.self) rt.objects q))
      | inr i ↦ inr i
    ];
    swept = λ s q h. ground (
      arith,
      fd_of-set_runtime p (some rt.self) rt.objects q,
      socket_at-set_runtime p (some rt.self) rt.objects q,
      s q,
    );
  }

  unlock-Keeps : (rt : Runtime c) → Keeps c rt (record rt { locked = false })
  unlock-Keeps rt = record { alive = λ q a. a; swept = λ s. s }

  insert_handle-Keeps :
      (p : ℕ) (rt : Runtime c)
      → find rt.all_handles (fd_of rt.objects p) ≡ none
      → Keeps c rt (insert_handle c p rt)
  unfolding insert_handle
  insert_handle-Keeps p rt fresh = record {
    alive = λ q a. elim a [
      | inl e ↦ inl (
          ground
            (arith, c.find-insert rt.all_handles (fd_of rt.objects p) p (fd_of rt.objects q) fresh))
      | inr i ↦ inr i
    ];
    swept = λ s q h. ground (
      arith,
      c.find-insert rt.all_handles (fd_of rt.objects p) p (fd_of rt.objects q) fresh,
      c.has-insert rt.all_sockets p q,
      s q,
    );
  }

  replace_handle-Keeps :
      (spurious : Bool) (p prev : ℕ) (rt : Runtime c)
      → find rt.all_handles (fd_of rt.objects p) ≡ some prev
      → Keeps c rt (replace_handle c p (retire_handle c spurious prev rt))
  unfolding replace_handle retire_handle
  replace_handle-Keeps spurious p prev rt there = record {
    alive = λ q a. elim a [
      | inl e ↦ elim (Bool-cases (fd_of rt.objects p == fd_of rt.objects q)) [
        | inl t ↦ inr (
            subst (In q) (sym f.same_removable) (
              subst (λ x. In q (rt.removable_handles ++ x ∷ [])) (same q e t)
                (In-last q rt.removable_handles)))
        | inr n ↦
            inl (ground (arith, e, fds p, fds q, assigned q, f.same_handles (fd_of rt.objects q)))
      ]
      | inr i ↦
          inr (subst (In q) (sym f.same_removable) (In-append q rt.removable_handles (prev ∷ []) i))
    ];
    swept = λ s q h. elim (Bool-cases (q == p)) [
      | inl t ↦ swept_new s q h t
      | inr n ↦ swept_old s q h n
    ];
  }
    where
      unlinked : Runtime c
      unlinked = record rt {
        removable_handles = rt.removable_handles ++ prev ∷ [];
        objects = set_runtime prev none rt.objects;
      }

      closed : Runtime c
      closed = close_handle c spurious prev unlinked

      f : Frame c unlinked closed
      f =
          close_handle-Frame c spurious prev unlinked
            (ground (arith, runtime_of-set_runtime prev none rt.objects prev))

      fds : (q : ℕ) → fd_of closed.objects q ≡ fd_of rt.objects q
      fds q = f.same_fd q ∙ fd_of-set_runtime prev none rt.objects q

      kinds : (q : ℕ) → socket_at closed.objects q ≡ socket_at rt.objects q
      kinds q = f.same_kind q ∙ socket_at-set_runtime prev none rt.objects q

      found : find closed.all_handles (fd_of closed.objects p) ≡ some prev
      found = ap (find closed.all_handles) (fds p) ∙ f.same_handles (fd_of rt.objects p) ∙ there

      assigned :
          (q : ℕ)
          → find (c.assign closed.all_handles (fd_of closed.objects p) p) (fd_of closed.objects q)
            ≡ (if fd_of closed.objects p == fd_of closed.objects q
                then some p
                else find closed.all_handles (fd_of closed.objects q))
      assigned q =
          c.find-assign closed.all_handles (fd_of closed.objects p) p (fd_of closed.objects q) prev
            found

      same :
          (q : ℕ)
          → find rt.all_handles (fd_of rt.objects q) ≡ some q
          → (fd_of rt.objects p == fd_of rt.objects q) ≡ true
          → q ≡ prev
      same q e t = ground (arith, there, e)

      erased : c.Set
      erased =
          if socket_at closed.objects prev
          then c.set_erase closed.all_sockets prev
          else closed.all_sockets

      left : (q : ℕ) → has erased q ≡ true → has rt.all_sockets q ≡ true
      left q h = ground (arith, c.has-erase closed.all_sockets prev q, f.same_sockets q)

      gone : (q : ℕ) → has erased q ≡ true → socket_at closed.objects q ≡ true → q ≢ prev
      gone q h k e = ground (arith, c.has-erase closed.all_sockets prev q)

      Entered : ℕ → Type 0
      Entered q =
          (socket_at closed.objects q ≡ true)
          × (find (c.assign closed.all_handles (fd_of closed.objects p) p) (fd_of closed.objects q)
              ≡ some q)

      swept_new :
          IsSwept c rt
          → (q : ℕ)
          → has (if socket_at closed.objects p then c.set_insert erased p else erased) q ≡ true
          → (q == p) ≡ true
          → Entered q
      swept_new s q h t = elim (Bool-cases (socket_at closed.objects p)) [
        | inl k ↦ (ground arith, ground (arith, assigned q))
        | inr k ↦ absurd (ground (arith, s q (left q (ground arith)), kinds q))
      ]

      swept_old :
          IsSwept c rt
          → (q : ℕ)
          → has (if socket_at closed.objects p then c.set_insert erased p else erased) q ≡ true
          → (q == p) ≡ false
          → Entered q
      swept_old s q h n = old (ground (arith, c.has-insert erased p q))
        where
          old : has erased q ≡ true → Entered q
          old i = (
            kinds q ∙ (s q (left q i)).0,
            elim (Bool-cases (fd_of rt.objects p == fd_of rt.objects q)) [
              | inl t ↦
                  absurd (gone q i (kinds q ∙ (s q (left q i)).0) (same q (s q (left q i)).1 t))
              | inr m ↦ ground (
                arith,
                (s q (left q i)).1,
                fds p,
                fds q,
                assigned q,
                f.same_handles (fd_of rt.objects q),
              )
            ],
          )

  enter_handle-Keeps :
      (spurious : Bool) (p : ℕ) (rt : Runtime c) (o : Option ℕ)
      → find rt.all_handles (fd_of rt.objects p) ≡ o
      → Keeps c rt (enter_handle c spurious p o rt)
  unfolding enter_handle
  enter_handle-Keeps spurious p rt none e = insert_handle-Keeps p rt e
  enter_handle-Keeps spurious p rt (some prev) e = replace_handle-Keeps spurious p prev rt e

  pub register_handle-Keeps :
      (spurious : Bool) (p : ℕ) (rt : Runtime c) → Keeps c rt (register_handle c spurious p rt)
  unfolding register_handle
  register_handle-Keeps spurious p rt =
      if_cases (Keeps c rt) rt.locked (λ _. link-Keeps p rt rt.locked true)
        (λ _. Keeps_trans c (link-Keeps p rt true rt.stuck) (
          Keeps_trans c
            (enter_handle-Keeps spurious p _ (find rt.all_handles (fd_of linked p)) refl)
            (unlock-Keeps _)))
    where
      linked : Objects
      linked = set_runtime p (some rt.self) rt.objects

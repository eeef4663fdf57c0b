-- ===== src/Runtime/Dispatch/Keeping.antt =====
-- Closing and deregistering a handle of a `Runtime` (src/core/runtime.cpp) free no handle.
pub mod Registering
use spinet.Common.{
  ℕ, ◌≡◌, ◌≢◌, refl, sym, ap, subst, ◌∙◌, Bool, true, false, ◌⊎◌, inl, inr, Option, none, some,
  List, [], ◌∷◌, ◌++◌, ◌==◌, if◌then◌else◌, arith, if_cases, Bool-cases,
}
use spinet.Handle.{Effect, deregister, close_fd, watch, notify}
use spinet.Runtime.Interface.{Containers, In}
use spinet.Runtime.Store.{
  Objects, fd_of, socket_at, set_runtime, fd_of-set_runtime, runtime_of-set_runtime,
  socket_at-set_runtime,
}
use spinet.Runtime.{
  Runtime, perform, remove_handle, drop_handle, deregister_handle, close_handle, insert_handle,
  retire_handle, replace_handle, enter_handle, register_handle,
}
use spinet.Runtime.Consistency.{Frame}
use spinet.Runtime.Closing.{close_as_cases, close_handle-Frame}

pub In-append : {A : Type 0} (a : A) (xs ys : List A) → In a xs → In a (xs ++ ys)
In-append a (x ∷ xs) ys (inl e) = inl e
In-append a (x ∷ xs) ys (inr i) = inr (In-append a xs ys i)
In-append a [] ys i = absurd i

pub In-last : {A : Type 0} (a : A) (xs : List A) → In a (xs ++ a ∷ [])
In-last a [] = inl refl
In-last a (x ∷ xs) = inr (In-last a xs)

module _ (c : Containers) where
  open c use {find, has}

  -- The runtime owns the handle at `p`: it is registered, or waits among the removed ones.
  abbrev pub IsAlive : ℕ → Runtime c → Type 0
  IsAlive p rt = (find rt.all_handles (fd_of rt.objects p) ≡ some p) ⊎ In p rt.removable_handles

  -- Each handle in the set of sockets is a socket and registered.
  abbrev pub IsSwept : Runtime c → Type 0
  IsSwept rt =
      (p : ℕ)
      → has rt.all_sockets p ≡ true
      → (socket_at rt.objects p ≡ true) × (find rt.all_handles (fd_of rt.objects p) ≡ some p)

  pub record Keeps (rt rt' : Runtime c) : Type 0 where
    pub alive : (p : ℕ) → IsAlive p rt → IsAlive p rt'
    pub swept : IsSwept rt → IsSwept rt'

  pub Keeps-refl : (rt : Runtime c) → Keeps rt rt
  Keeps-refl rt = record { alive = λ p a. a; swept = λ s. s }

  pub Keeps_trans : {rt rt' rt'' : Runtime c} → Keeps rt rt' → Keeps rt' rt'' → Keeps rt rt''
  Keeps_trans k l = record {
    alive = λ p a. l.alive p (k.alive p a);
    swept = λ s. l.swept (k.swept s);
  }

  pub Frame-Keeps : {rt rt' : Runtime c} → Frame c rt rt' → Keeps rt rt'
  Frame-Keeps {rt} {rt'} f = record {
    alive = λ p a. elim a [
      | inl e ↦ inl (ground (arith, f.same_fd p, f.same_handles (fd_of rt'.objects p)))
      | inr i ↦ inr (subst (In p) (sym f.same_removable) i)
    ];
    swept = λ s p h. ground (
      arith,
      f.same_sockets p,
      f.same_kind p,
      f.same_fd p,
      f.same_handles (fd_of rt'.objects p),
      s p,
    );
  }

  remove_handle-Keeps :
      (p : ℕ) (rt : Runtime c)
      → find rt.all_handles (fd_of rt.objects p) ≡ some p
      → Keeps rt (remove_handle c p rt)
  unfolding remove_handle
  remove_handle-Keeps p rt here = record {
    alive = λ q a. elim a [
      | inl e ↦ elim (Bool-cases (fd_of rt.objects p == fd_of rt.objects q)) [
        | inl t ↦ inr (
            subst (λ x. In q (rt.removable_handles ++ x ∷ [])) (same q e t)
              (In-last q rt.removable_handles))
        | inr n ↦ inl (
            ground (
              arith,
              c.find-erase rt.all_handles (fd_of rt.objects p) (fd_of rt.objects q),
              fd_of-set_runtime p none rt.objects q,
            ))
      ]
      | inr i ↦ inr (In-append q rt.removable_handles (p ∷ []) i)
    ];
    swept = λ s q h. ground (
      arith,
      c.find-erase rt.all_handles (fd_of rt.objects p) (fd_of rt.objects q),
      c.has-erase rt.all_sockets p q,
      fd_of-set_runtime p none rt.objects q,
      socket_at-set_runtime p none rt.objects q,
      s q,
    );
  }
    where
      same :
          (q : ℕ)
          → find rt.all_handles (fd_of rt.objects q) ≡ some q
          → (fd_of rt.objects p == fd_of rt.objects q) ≡ true
          → q ≡ p
      same q e t = ground arith

  pub deregister_handle-Keeps : (p : ℕ) (rt : Runtime c) → Keeps rt (deregister_handle c p rt)
  unfolding deregister_handle drop_handle
  deregister_handle-Keeps p rt =
      if_cases (Keeps rt) rt.locked (λ _. record { alive = λ q a. a; swept = λ s. s })
        (λ _. go (find rt.all_handles (fd_of rt.objects p)) refl)
    where
      go :
          (o : Option ℕ)
          → find rt.all_handles (fd_of rt.objects p) ≡ o
          → Keeps rt (drop_handle c p o rt)
      go none e = Keeps-refl rt
      go (some q) e =
          if_cases (Keeps rt) (q == p) (λ t. remove_handle-Keeps p rt (ground arith))
            (λ _. Keeps-refl rt)

  told : (es : List Effect) (rt : Runtime c) → Keeps rt (record rt { effects = es })
  told es rt = record { alive = λ q a. a; swept = λ s. s }

  pub perform-Keeps : (p : ℕ) (es : List Effect) (rt : Runtime c) → Keeps rt (perform c p es rt)
  unfolding perform
  perform-Keeps p [] rt = Keeps-refl rt
  perform-Keeps p (deregister r ∷ es) rt =
      Keeps_trans (deregister_handle-Keeps p rt) (perform-Keeps p es (deregister_handle c p rt))
  perform-Keeps p (close_fd fd ∷ es) rt = Keeps_trans (told _ rt) (perform-Keeps p es _)
  perform-Keeps p (watch ctl fd q events ∷ es) rt = Keeps_trans (told _ rt) (perform-Keeps p es _)
  perform-Keeps p (notify callback result n ∷ es) rt =
      Keeps_trans (told _ rt) (perform-Keeps p es _)

  pub close_handle-Keeps :
      (spurious : Bool) (p : ℕ) (rt : Runtime c) → Keeps rt (close_handle c spurious p rt)
  unfolding close_handle
  close_handle-Keeps spurious p rt =
      close_as_cases c (Keeps rt) p (λ rt' es k. Keeps_trans k (told es rt')) spurious
        (rt.objects p) rt refl (λ rt' f. Frame-Keeps f)
        (λ rt' f n. Keeps_trans (Frame-Keeps f) (deregister_handle-Keeps p rt'))

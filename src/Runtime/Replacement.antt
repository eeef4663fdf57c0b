-- ===== src/Runtime/Replacement.antt =====
-- The second case of `Runtime::register_handle` (src/core/runtime.cpp): another handle stands under the
-- descriptor of the new one.
use spinet.Common.{
  ℕ, ◌≡◌, ◌≢◌, refl, sym, ap, ap₂, ◌∙◌, Bool, true, false, none, some, List, [], ◌∷◌, ◌++◌,
}
use mathlib.Core.List.{append_assoc}
use spinet.Handle.{close_fd, watch, modify}
use spinet.Socket.{Socket}
use spinet.Runtime.Interface.{Containers}
use spinet.Runtime.Store.{
  Object, socket, handle_of, set_runtime_self, set_runtime_ne, fd_of, socket_at, set_runtime,
  fd_of-set_runtime, socket_at-set_runtime,
}
use spinet.Runtime.{
  Runtime, close_as, close_handle, retire_handle, replace_handle, enter_handle, register_handle,
  events_of,
}
use spinet.Runtime.Consistency.{IsConsistent}
use spinet.Runtime.Retirement.{Retired, retire_handle-Retired}
use spinet.Runtime.Closing.{told_after, close_as-effects}

module _ (c : Containers) where
  open c use {find}

  register_handle-replaces :
      (p prev : ℕ) (rt : Runtime c)
      → rt.locked ≡ false
      → find rt.all_handles (fd_of (set_runtime p (some rt.self) rt.objects) p) ≡ some prev
      → (register_handle c false p rt).effects
        ≡ (replace_handle c p (
            retire_handle c false prev (record rt {
              objects = set_runtime p (some rt.self) rt.objects;
              locked = true;
            }))).effects
  unfolding register_handle enter_handle
  register_handle-replaces p prev rt unlocked taken = simp (unlocked, taken, enter_handle)

  replace_handle-effects :
      (p : ℕ) (rt : Runtime c)
      → (replace_handle c p rt).effects
        ≡ rt.effects
          ++ watch modify (fd_of rt.objects p) p (events_of (socket_at rt.objects p)) ∷ []
  unfolding replace_handle
  replace_handle-effects p rt = refl

  retire_handle-effects :
      (prev : ℕ) (s : Socket) (wire : List ℕ) (rt : Runtime c)
      → rt.objects prev ≡ socket s wire
      → s.closed ≡ false
      → (retire_handle c false prev rt).effects
        ≡ rt.effects ++ (close_fd s.handle.fd ∷ told_after s)
  unfolding retire_handle close_handle
  retire_handle-effects prev s wire rt at live =
      ap (λ (o : Object). (close_as c false prev o unlinked).effects)
        (set_runtime_self prev none rt.objects (socket s wire) at)
      ∙ close_as-effects c prev (record s { handle = record (s.handle) { runtime = none } }) wire
          unlinked live refl
    where
      unlinked : Runtime c
      unlinked = record rt {
        removable_handles = rt.removable_handles ++ prev ∷ [];
        objects = set_runtime prev none rt.objects;
      }

  -- Where an open socket is registered under the descriptor of a handle that is being registered, and
  -- the exchange of its `close` does not fail, `register_handle` closes that descriptor, which by then is
  -- the new handle's too, tells the operations of the old socket, and then modifies what epoll watches
  -- under the descriptor that it has closed.
  pub register_handle-closes_descriptor :
      (p prev : ℕ) (s : Socket) (wire : List ℕ) (rt : Runtime c)
      → IsConsistent c rt
      → prev ≢ p
      → find rt.all_handles (fd_of rt.objects p) ≡ some prev
      → rt.objects prev ≡ socket s wire
      → s.closed ≡ false
      → (register_handle c false p rt).effects
        ≡ rt.effects
          ++ (close_fd (fd_of rt.objects p)
              ∷ (told_after s
                  ++ watch modify (fd_of rt.objects p) p (events_of (socket_at rt.objects p)) ∷ []))
  register_handle-closes_descriptor p prev s wire rt inv ne here at live =
      entered ∙ replaced ∙ append_assoc rt.effects _ _
    where
      fd : ℕ
      fd = fd_of rt.objects p

      linked_rt : Runtime c
      linked_rt = record rt { objects = set_runtime p (some rt.self) rt.objects; locked = true }

      rr : Runtime c
      rr = retire_handle c false prev linked_rt

      r : Retired c prev linked_rt rr
      r = retire_handle-Retired c false prev linked_rt

      same_fd : fd_of linked_rt.objects p ≡ fd
      same_fd = fd_of-set_runtime p (some rt.self) rt.objects p

      own_fd : s.handle.fd ≡ fd
      own_fd = sym (ap (λ (o : Object). (handle_of o).fd) at) ∙ inv.keyed fd prev here

      entered : (register_handle c false p rt).effects ≡ (replace_handle c p rr).effects
      entered = register_handle-replaces p prev rt inv.unlocked (rw same_fd here)

      replaced :
          (replace_handle c p rr).effects
          ≡ (rt.effects ++ (close_fd fd ∷ told_after s))
            ++ watch modify fd p (events_of (socket_at rt.objects p)) ∷ []
      replaced =
          replace_handle-effects p rr
          ∙ ap₂ ◌++◌
              (retire_handle-effects prev s wire linked_rt
                  (set_runtime_ne p (some rt.self) rt.objects prev (λ e. ne (sym e)) ∙ at) live
                ∙ ap (λ (k : ℕ). rt.effects ++ (close_fd k ∷ told_after s)) own_fd)
              (ap₂ (λ (k : ℕ) (b : Bool). watch modify k p (events_of b) ∷ [])
                (r.same_fd p ∙ same_fd)
                (r.same_kind p ∙ socket_at-set_runtime p (some rt.self) rt.objects p))

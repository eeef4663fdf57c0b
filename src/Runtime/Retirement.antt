-- ===== src/Runtime/Retirement.antt =====
-- The first half of the replacement in `Runtime::register_handle` (src/core/runtime.cpp): the handle that had
-- the descriptor is retired.
use spinet.Common.{
  ap, ◌&&◌, ℕ, ◌≡◌, ◌∙◌, Bool, false, none, [], ◌∷◌, ◌++◌, ◌==◌, if◌then◌else◌, arith,
}
use spinet.Runtime.Interface.{Containers}
use spinet.Runtime.Store.{
  open_at, open_at-set_runtime, fd_of, runtime_of, socket_at, set_runtime, fd_of-set_runtime,
  runtime_of-set_runtime, socket_at-set_runtime,
}
use spinet.Runtime.{Runtime, close_handle, retire_handle}
use spinet.Runtime.Consistency.{Frame}
use spinet.Runtime.Closing.{close_handle-Frame}
use spinet.Runtime.Unlinked.{close_handle-Shut}

module _ (c : Containers) where
  open c use {find, has}

  -- The registry before the table of handles is changed: all but the new handle `p`, which is linked
  -- and not yet registered, is as it was.
  pub record Retired (prev : ℕ) (rt rt' : Runtime c) : Type 0 where
    pub same_self : rt'.self ≡ rt.self
    pub same_stuck : rt'.stuck ≡ rt.stuck
    pub same_handles : (k : ℕ) → find rt'.all_handles k ≡ find rt.all_handles k
    pub same_fd : (q : ℕ) → fd_of rt'.objects q ≡ fd_of rt.objects q
    pub same_kind : (q : ℕ) → socket_at rt'.objects q ≡ socket_at rt.objects q
    pub unlinked :
        (q : ℕ) → runtime_of rt'.objects q ≡ (if prev == q then none else runtime_of rt.objects q)
    pub gone :
        (q : ℕ)
        → has rt'.all_sockets q ≡ (
            if socket_at rt.objects prev
            then (if prev == q then false else has rt.all_sockets q)
            else has rt.all_sockets q)

  pub retire_handle-Retired :
      (spurious : Bool) (prev : ℕ) (rt : Runtime c)
      → Retired prev rt (retire_handle c spurious prev rt)
  unfolding retire_handle
  retire_handle-Retired spurious prev rt = record {
    same_self = f.same_self;
    same_stuck = f.same_stuck;
    same_handles = f.same_handles;
    same_fd = λ q. f.same_fd q ∙ fd_of-set_runtime prev none rt.objects q;
    same_kind = λ q. f.same_kind q ∙ socket_at-set_runtime prev none rt.objects q;
    unlinked = λ q. f.same_runtime q ∙ runtime_of-set_runtime prev none rt.objects q;
    gone = λ q. ground (
      arith,
      f.same_sockets q,
      f.same_kind prev,
      socket_at-set_runtime prev none rt.objects prev,
      c.has-erase (close_handle c spurious prev u).all_sockets prev q,
    );
  }
    where
      u : Runtime c
      u = record rt {
        removable_handles = rt.removable_handles ++ prev ∷ [];
        objects = set_runtime prev none rt.objects;
      }

      f : Frame c u (close_handle c spurious prev u)
      f =
          close_handle-Frame c spurious prev u
            (ground (arith, runtime_of-set_runtime prev none rt.objects prev))

  pub retire_handle-shut :
      (spurious : Bool) (prev : ℕ) (rt : Runtime c)
      → open_at (retire_handle c spurious prev rt).objects prev
        ≡ (spurious && open_at rt.objects prev)
  unfolding retire_handle
  retire_handle-shut spurious prev rt =
      (close_handle-Shut c spurious prev u
        (ground (arith, runtime_of-set_runtime prev none rt.objects prev))).shut_at
      ∙ ap (λ b. spurious && b) (open_at-set_runtime prev none rt.objects prev)
    where
      u : Runtime c
      u = record rt {
        removable_handles = rt.removable_handles ++ prev ∷ [];
        objects = set_runtime prev none rt.objects;
      }

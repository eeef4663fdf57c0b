-- ===== src/Runtime/Consistency.antt =====
-- The registry of a `Runtime` (src/core/runtime.cpp) is consistent, and its methods keep it so.
use spinet.Common.{ℕ, ◌≡◌, refl, ◌∙◌, true, false, Option, none, some, ◌==◌, arith, if_cases}
use spinet.Runtime.Interface.{Containers}
use spinet.Runtime.Store.{
  fd_of, runtime_of, socket_at, fd_of-set_runtime, runtime_of-set_runtime, socket_at-set_runtime,
}
use spinet.Runtime.{Runtime, remove_handle, drop_handle, deregister_handle}

module _ (c : Containers) where
  open c use {find, has}

  -- A handle is registered under its own descriptor and linked to this runtime, the set of sockets holds
  -- exactly the registered handles that are sockets, and the lock is free and was never waited for by
  -- its own holder.
  pub record IsConsistent (rt : Runtime c) : Type 0 where
    pub keyed : (fd p : ℕ) → find rt.all_handles fd ≡ some p → fd_of rt.objects p ≡ fd
    pub linked :
        (fd p : ℕ) → find rt.all_handles fd ≡ some p → runtime_of rt.objects p ≡ some rt.self
    pub sockets :
        (p : ℕ)
        → has rt.all_sockets p ≡ true
        → (socket_at rt.objects p ≡ true) × (find rt.all_handles (fd_of rt.objects p) ≡ some p)
    pub complete :
        (fd p : ℕ)
        → find rt.all_handles fd ≡ some p
        → socket_at rt.objects p ≡ true
        → has rt.all_sockets p ≡ true
    pub unlocked : rt.locked ≡ false
    pub free : rt.stuck ≡ false

  -- Runtimes with the same tables and lock, whose handles have the same descriptors and links.
  pub record Frame (rt rt' : Runtime c) : Type 0 where
    pub same_self : rt'.self ≡ rt.self
    pub same_handles : (k : ℕ) → find rt'.all_handles k ≡ find rt.all_handles k
    pub same_sockets : (q : ℕ) → has rt'.all_sockets q ≡ has rt.all_sockets q
    pub same_locked : rt'.locked ≡ rt.locked
    pub same_stuck : rt'.stuck ≡ rt.stuck
    pub same_removable : rt'.removable_handles ≡ rt.removable_handles
    pub same_fd : (q : ℕ) → fd_of rt'.objects q ≡ fd_of rt.objects q
    pub same_runtime : (q : ℕ) → runtime_of rt'.objects q ≡ runtime_of rt.objects q
    pub same_kind : (q : ℕ) → socket_at rt'.objects q ≡ socket_at rt.objects q

  pub Frame-IsConsistent : {rt rt' : Runtime c} → Frame rt rt' → IsConsistent rt → IsConsistent rt'
  Frame-IsConsistent {rt} {rt'} f inv = record {
    keyed = λ k q h. ground (arith, f.same_handles k, f.same_fd q, inv.keyed k q);
    linked =
        λ k q h. ground (arith, f.same_handles k, f.same_runtime q, f.same_self, inv.linked k q);
    sockets = λ q h. ground (
      arith,
      f.same_sockets q,
      f.same_kind q,
      f.same_fd q,
      f.same_handles (fd_of rt'.objects q),
      inv.sockets q,
    );
    complete = λ k q h s.
        ground (arith, f.same_handles k, f.same_kind q, f.same_sockets q, inv.complete k q);
    unlocked = f.same_locked ∙ inv.unlocked;
    free = f.same_stuck ∙ inv.free;
  }

  module _ (p : ℕ) (rt : Runtime c) (inv : IsConsistent rt) where
    open inv use {keyed, linked, sockets, complete}

    abbrev fd : ℕ
    fd = fd_of rt.objects p

    remove_handle-IsConsistent :
        find rt.all_handles (fd_of rt.objects p) ≡ some p → IsConsistent (remove_handle c p rt)
    unfolding remove_handle
    remove_handle-IsConsistent here = record {
      keyed = λ k q h. ground (
        arith,
        c.find-erase rt.all_handles fd k,
        keyed k q,
        fd_of-set_runtime p none rt.objects q,
      );
      linked = λ k q h. ground (
        arith,
        c.find-erase rt.all_handles fd k,
        keyed k q,
        linked k q,
        runtime_of-set_runtime p none rt.objects q,
      );
      sockets = λ q h. ground (
        arith,
        c.find-erase rt.all_handles fd (fd_of rt.objects q),
        fd_of-set_runtime p none rt.objects q,
        socket_at-set_runtime p none rt.objects q,
        c.has-erase rt.all_sockets p q,
        sockets q,
      );
      complete = λ k q h s. ground (
        arith,
        c.find-erase rt.all_handles fd k,
        keyed k q,
        socket_at-set_runtime p none rt.objects q,
        c.has-erase rt.all_sockets p q,
        complete k q,
      );
      unlocked = inv.unlocked;
      free = inv.free;
    }

    drop_handle-IsConsistent :
        (o : Option ℕ)
        → find rt.all_handles (fd_of rt.objects p) ≡ o
        → IsConsistent (drop_handle c p o rt)
    unfolding drop_handle
    drop_handle-IsConsistent none e = inv
    drop_handle-IsConsistent (some q) e =
        if_cases IsConsistent (q == p) (λ t. remove_handle-IsConsistent (ground arith)) (λ _. inv)

    -- In a consistent registry, `deregister_handle` of any handle leaves a consistent registry.
    pub deregister_handle-IsConsistent : IsConsistent (deregister_handle c p rt)
    unfolding deregister_handle
    deregister_handle-IsConsistent =
        if_cases IsConsistent rt.locked (λ t. absurd (ground (arith, inv.unlocked)))
          (λ _. drop_handle-IsConsistent (find rt.all_handles (fd_of rt.objects p)) refl)

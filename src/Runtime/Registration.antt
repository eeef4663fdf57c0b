-- ===== src/Runtime/Registration.antt =====
-- `Runtime::register_handle` (src/core/runtime.cpp) keeps the registry consistent, in both of its cases,
-- and never waits for the lock that it holds.
use spinet.Common.{
  ap, subst, ◌&&◌, ℕ, ◌≡◌, ◌≢◌, refl, ◌∙◌, Bool, true, false, Option, none, some, ◌==◌,
  if◌then◌else◌, arith, if_cases,
}
use spinet.Runtime.Interface.{Containers}
use spinet.Runtime.Store.{
  open_at, open_at-set_runtime, fd_of, runtime_of, socket_at, set_runtime, fd_of-set_runtime,
  runtime_of-set_runtime, socket_at-set_runtime,
}
use spinet.Runtime.{
  Runtime, insert_handle, retire_handle, replace_handle, enter_handle, register_handle,
}
use spinet.Runtime.Consistency.{IsConsistent}
use spinet.Runtime.Retirement.{Retired, retire_handle-Retired, retire_handle-shut}

module _ (c : Containers) where
  open c use {find, has}

  -- A handle that was registered under the descriptor is linked to no runtime and not among the sockets, and,
  -- where it is a socket, open only if it was and its exchange has failed.
  abbrev pub Replaced : (spurious : Bool) → Runtime c → Option ℕ → Runtime c → Type 0
  Replaced spurious rt none rt' = Unit {0}
  Replaced spurious rt (some prev) rt' =
      (runtime_of rt'.objects prev ≡ none)
      × (has rt'.all_sockets prev ≡ false)
      × (open_at rt'.objects prev ≡ (spurious && open_at rt.objects prev))

  module _ (spurious : Bool) (p : ℕ) (rt : Runtime c) (inv : IsConsistent c rt)
      (new : find rt.all_handles (fd_of rt.objects p) ≢ some p) where
    abbrev fd : ℕ
    fd = fd_of rt.objects p

    -- With the link of the new handle set, and the lock taken.
    abbrev linked_rt : Runtime c
    linked_rt = record rt { objects = set_runtime p (some rt.self) rt.objects; locked = true }

    inserted-IsConsistent :
        find rt.all_handles fd ≡ none
        → IsConsistent c (record (insert_handle c p linked_rt) { locked = false })
    unfolding insert_handle
    inserted-IsConsistent free = record {
      keyed = λ k q h. ground (arith, find_new k, fds q, fds p, inv.keyed k q);
      linked = λ k q h. ground (arith, find_new k, fds p, links q, inv.linked k q);
      sockets = λ q h. ground (
        arith,
        has_new q,
        find_new (fd_of linked_rt.objects q),
        fds q,
        fds p,
        kinds q,
        inv.sockets q,
      );
      complete = λ k q h s.
          ground (arith, has_new q, find_new k, fds p, kinds q, kinds p, inv.complete k q);
      unlocked = refl;
      free = inv.free;
    }
      where
        fds : (q : ℕ) → fd_of linked_rt.objects q ≡ fd_of rt.objects q
        fds = fd_of-set_runtime p (some rt.self) rt.objects

        links :
            (q : ℕ)
            → runtime_of linked_rt.objects q
              ≡ (if p == q then some rt.self else runtime_of rt.objects q)
        links = runtime_of-set_runtime p (some rt.self) rt.objects

        kinds : (q : ℕ) → socket_at linked_rt.objects q ≡ socket_at rt.objects q
        kinds = socket_at-set_runtime p (some rt.self) rt.objects

        find_new :
            (k : ℕ)
            → find (c.insert rt.all_handles (fd_of linked_rt.objects p) p) k
              ≡ (if fd == k then some p else find rt.all_handles k)
        find_new k = rw (fds p) (c.find-insert rt.all_handles fd p k free)

        has_new :
            (q : ℕ)
            → has (c.set_insert rt.all_sockets p) q
              ≡ (if p == q then true else has rt.all_sockets q)
        has_new = c.has-insert rt.all_sockets p

    replaced-IsConsistent :
        (prev : ℕ)
        → find rt.all_handles fd ≡ some prev
        → IsConsistent c (record (replace_handle c p (retire_handle c spurious prev linked_rt)) {
          locked = false;
        })
    unfolding replace_handle
    replaced-IsConsistent prev taken = record {
      keyed = λ k q h. ground (arith, find_new k, fds q, fds p, r.same_handles k, inv.keyed k q);
      linked = λ k q h. ground (
        arith,
        find_new k,
        fds p,
        r.same_handles k,
        r.same_self,
        r.unlinked q,
        links q,
        inv.linked k q,
        inv.keyed k q,
        inv.keyed fd prev,
        new,
      );
      sockets = λ q h. ground (
        arith,
        has_new q,
        find_new (fd_of rr.objects q),
        r.same_handles (fd_of rr.objects q),
        r.same_kind q,
        r.same_kind p,
        r.gone q,
        kinds prev,
        kinds q,
        kinds p,
        fds q,
        fds p,
        inv.sockets q,
        inv.keyed fd prev,
      );
      complete = λ k q h s. ground (
        arith,
        has_new q,
        find_new k,
        r.same_handles k,
        r.same_kind q,
        r.same_kind p,
        r.gone q,
        fds p,
        kinds q,
        kinds p,
        inv.complete k q,
        inv.keyed k q,
        inv.keyed fd prev,
      );
      unlocked = refl;
      free = r.same_stuck ∙ inv.free;
    }
      where
        rr : Runtime c
        rr = retire_handle c spurious prev linked_rt

        r : Retired c prev linked_rt rr
        r = retire_handle-Retired c spurious prev linked_rt

        fds : (q : ℕ) → fd_of rr.objects q ≡ fd_of rt.objects q
        fds q = r.same_fd q ∙ fd_of-set_runtime p (some rt.self) rt.objects q

        links :
            (q : ℕ)
            → runtime_of linked_rt.objects q
              ≡ (if p == q then some rt.self else runtime_of rt.objects q)
        links = runtime_of-set_runtime p (some rt.self) rt.objects

        kinds : (q : ℕ) → socket_at linked_rt.objects q ≡ socket_at rt.objects q
        kinds = socket_at-set_runtime p (some rt.self) rt.objects

        find_new :
            (k : ℕ)
            → find (c.assign rr.all_handles (fd_of rr.objects p) p) k
              ≡ (if fd == k then some p else find rr.all_handles k)
        find_new k =
            rw (fds p) (c.find-assign rr.all_handles fd p k prev (r.same_handles fd ∙ taken))

        has_new :
            (q : ℕ)
            → has (c.set_insert rr.all_sockets p) q
              ≡ (if p == q then true else has rr.all_sockets q)
        has_new = c.has-insert rr.all_sockets p

    same_fd : fd_of linked_rt.objects p ≡ fd
    same_fd = fd_of-set_runtime p (some rt.self) rt.objects p

    inserted-find :
        find rt.all_handles fd ≡ none → find (insert_handle c p linked_rt).all_handles fd ≡ some p
    unfolding insert_handle
    inserted-find free = rw same_fd (ground (arith, c.find-insert rt.all_handles fd p fd free))

    replaced-find :
        (prev : ℕ)
        → find rt.all_handles fd ≡ some prev
        → find (replace_handle c p (retire_handle c spurious prev linked_rt)).all_handles fd
          ≡ some p
    unfolding replace_handle
    replaced-find prev taken =
        rw (r.same_fd p ∙ same_fd)
          (ground (arith, c.find-assign rr.all_handles fd p fd prev (r.same_handles fd ∙ taken)))
      where
        rr : Runtime c
        rr = retire_handle c spurious prev linked_rt

        r : Retired c prev linked_rt rr
        r = retire_handle-Retired c spurious prev linked_rt

    replace_handle-Replaced :
        (prev : ℕ)
        → find rt.all_handles fd ≡ some prev
        → Replaced spurious rt
            (some prev)
            (replace_handle c p (retire_handle c spurious prev linked_rt))
    unfolding replace_handle
    replace_handle-Replaced prev taken = (
      ground (arith, r.unlinked prev),
      ground (
        arith,
        c.has-insert rr.all_sockets p prev,
        r.gone prev,
        r.same_kind p,
        socket_at-set_runtime p (some rt.self) rt.objects prev,
        inv.sockets prev,
        new,
        taken,
      ),
      retire_handle-shut c spurious prev linked_rt
          ∙ ap (λ b. spurious && b) (open_at-set_runtime p (some rt.self) rt.objects prev),
    )
      where
        rr : Runtime c
        rr = retire_handle c spurious prev linked_rt

        r : Retired c prev linked_rt rr
        r = retire_handle-Retired c spurious prev linked_rt

    abbrev Registered : Option ℕ → Runtime c → Type 0
    Registered o rt' =
        IsConsistent c rt' × (find rt'.all_handles fd ≡ some p) × Replaced spurious rt o rt'

    -- Registering a handle that is not registered yet keeps the registry consistent: the handle is linked and
    -- found under its descriptor. A handle that was registered under the same descriptor is unlinked and
    -- gone from the set of sockets, and if it was an open socket it is closed, unless the exchange of its
    -- `close` has failed. The lock is free again, and no method that the registration calls has waited for
    -- it.
    pub register_handle-IsConsistent :
        IsConsistent c (register_handle c spurious p rt)
        × (find (register_handle c spurious p rt).all_handles fd ≡ some p)
        × Replaced spurious rt (find rt.all_handles fd) (register_handle c spurious p rt)
    unfolding register_handle
    register_handle-IsConsistent =
        subst (λ o. Registered o (register_handle c spurious p rt))
          (ap (find rt.all_handles) same_fd)
          (go (find rt.all_handles (fd_of linked_rt.objects p)) refl)
      where
        go :
            (o : Option ℕ)
            → find rt.all_handles (fd_of linked_rt.objects p) ≡ o
            → Registered o (
                if rt.locked
                then record linked_rt { locked = rt.locked; stuck = true }
                else record (enter_handle c spurious p o linked_rt) { locked = false })
        go none e =
            if_cases (Registered none) rt.locked (λ t. absurd (ground (arith, inv.unlocked)))
              (λ _. (inserted-IsConsistent (rw same_fd at e), inserted-find (rw same_fd at e), tt))
        go (some prev) e =
            if_cases (Registered (some prev)) rt.locked (λ t. absurd (ground (arith, inv.unlocked)))
              (λ _. (
                replaced-IsConsistent prev (rw same_fd at e),
                replaced-find prev (rw same_fd at e),
                replace_handle-Replaced prev (rw same_fd at e),
              ))

-- ===== src/Runtime/Serving/Registry.antt =====
-- The registry of a `Runtime` (src/core/runtime.cpp) under what a server or a client does with it.
use spinet.Common.{subst, ℕ, ◌<◌, ◌≡◌, refl, ◌∙◌, Bool, inl, inr, none, some, if_cases, arith}
use spinet.Runtime.Interface.{Containers, In}
use spinet.Runtime.Store.{Object, put, fd_of, runtime_of}
use spinet.Runtime.{Runtime, Fate, release_all_handles}
use spinet.Runtime.Consistency.{IsConsistent}
use spinet.Runtime.Registration.{register_handle-IsConsistent}
use spinet.Runtime.Releasing.{Released, release_all_handles-Released}
use spinet.Runtime.Serving.{Serving, new_runtime, run_runtime, stop_runtime, serve}
use spinet.Runtime.Serving.Owning.{register_handle-Older, register_handle-Retires}

module _ (c : Containers) where
  open c use {find}

  -- A consistent registry whose handles stand below the new addresses, the removed ones unlinked.
  pub record IsServing (w : Serving c) : Type 0 where
    pub consistent : IsConsistent c w.registry
    pub older : (k p : ℕ) → find w.registry.all_handles k ≡ some p → p < w.next
    pub retired :
        (q : ℕ)
        → In q w.registry.removable_handles
        → (runtime_of w.registry.objects q ≡ none) × (q < w.next)

  pub new_runtime-IsServing : IsServing (new_runtime c)
  new_runtime-IsServing = record {
    consistent = record {
      keyed = λ k q h. absurd (ground (arith, c.find-empty k));
      linked = λ k q h. absurd (ground (arith, c.find-empty k));
      sockets = λ q h. absurd (ground (arith, c.has-empty q));
      complete = λ k q h s. absurd (ground (arith, c.find-empty k));
      unlocked = refl;
      free = refl;
    };
    older = λ k q h. absurd (ground (arith, c.find-empty k));
    retired = λ q i. absurd i;
  }

  pub run_runtime-IsServing :
      (spurious : Bool) (w : Serving c) → IsServing w → IsServing (run_runtime c spurious w).0
  unfolding run_runtime
  run_runtime-IsServing spurious w h = record {
    consistent = h.consistent;
    older = h.older;
    retired = h.retired;
  }

  placed-IsConsistent :
      (o : Object) (w : Serving c)
      → IsServing w
      → IsConsistent c (record w.registry { objects = put w.registry.objects w.next o })
  placed-IsConsistent o w h = record {
    keyed = λ k q e. ground (arith, inv.keyed k q e, h.older k q e);
    linked = λ k q e. ground (arith, inv.linked k q e, h.older k q e);
    sockets = λ q e.
        ground (arith, inv.sockets q e, h.older (fd_of w.registry.objects q) q (inv.sockets q e).1);
    complete = λ k q e s. ground (arith, inv.complete k q e, h.older k q e);
    unlocked = inv.unlocked;
    free = inv.free;
  }
    where
      inv : IsConsistent c w.registry
      inv = h.consistent

  pub serve-IsServing :
      (spurious : Bool) (o : Object) (w : Serving c)
      → IsServing w
      → IsServing (serve c spurious o w)
  unfolding serve
  serve-IsServing spurious o w h = record {
    consistent =
        (register_handle-IsConsistent c spurious w.next placed (placed-IsConsistent o w h)
          (λ e. omega (arith, h.older _ w.next e))).0;
    older = λ k q e. elim (register_handle-Older c spurious w.next placed k q e) [
      | inl new ↦ omega (arith, new)
      | inr old ↦ omega (arith, h.older k q old)
    ];
    retired = λ q i.
        let (alone, before) =
          register_handle-Retires c spurious w.next placed
            (λ r j. (ground (arith, h.retired r j), (λ e. omega (arith, (h.retired r j).1, e)))) q
            i in
        (
          alone,
          elim before [
            | inl waited ↦ omega (arith, (h.retired q waited).1)
            | inr (k, found) ↦ omega (arith, h.older k q found)
          ],
        );
  }
    where
      placed : Runtime c
      placed = record w.registry { objects = put w.registry.objects w.next o }

  pub stop_runtime-IsServing :
      (fates : ℕ → Fate) (w : Serving c) → IsServing w → IsServing (stop_runtime c fates w)
  unfolding stop_runtime
  stop_runtime-IsServing fates w h =
      if_cases IsServing w.running
        (λ _. record {
          consistent = record {
            keyed = λ k q e. absurd (ground (arith, r.no_handles k));
            linked = λ k q e. absurd (ground (arith, r.no_handles k));
            sockets = λ q e. absurd (ground (arith, r.no_sockets q));
            complete = λ k q e s. absurd (ground (arith, r.no_handles k));
            unlocked = r.unlocked;
            free = r.same_stuck ∙ h.consistent.free;
          };
          older = λ k q e. absurd (ground (arith, r.no_handles k));
          retired = λ q i. absurd (subst (In q) r.none_removable i);
        })
        (λ _. h)
    where
      r : Released c fates w.registry (release_all_handles c fates w.registry)
      r = release_all_handles-Released c fates w.registry (λ q i. inl (h.retired q i).0)

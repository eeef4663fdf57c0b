-- ===== src/Runtime/Removal.antt =====
-- How handles leave a `Runtime` (src/core/runtime.cpp): `deregister_handle`, and the loop of
-- `release_all_handles`.
use spinet.Common.{
  ℕ, true, map, Bool-cases, suc, ◌≡◌, ◌≢◌, refl, ◌∙◌, false, Option, none, some, List, [], ◌∷◌,
  ◌++◌, ◌==◌, arith, inl, inr, if_cases,
}
use spinet.Handle.{watch, remove}
use spinet.Socket.Closed.{closings, closings-append}
use spinet.Runtime.Interface.{Containers, In}
use spinet.Runtime.Store.{
  open_at, open_at-set_runtime, fd_of, runtime_of, socket_at, runtime_of-set_runtime,
}
use spinet.Runtime.{
  occurs, Runtime, current_load, remove_handle, drop_handle, deregister_handle, release_each,
  events_of,
}
use spinet.Runtime.Consistency.{IsConsistent}

In-append : {A : Type 0} (a : A) (xs : List A) → In a (xs ++ a ∷ [])
In-append a [] = inl refl
In-append a (x ∷ xs) = inr (In-append a xs)

module _ (c : Containers) where
  open c use {find, has}

  -- What is left of a registry without the handle `p`.
  pub record Without (p : ℕ) (rt rt' : Runtime c) : Type 0 where
    pub gone : find rt'.all_handles (fd_of rt.objects p) ≡ none
    pub others : (k : ℕ) → k ≢ fd_of rt.objects p → find rt'.all_handles k ≡ find rt.all_handles k
    pub one_less : suc (current_load c rt') ≡ current_load c rt
    pub no_socket : has rt'.all_sockets p ≡ false
    pub unlinked : runtime_of rt'.objects p ≡ none
    pub alive : In p rt'.removable_handles
    pub unwatched :
        rt'.effects
        ≡ rt.effects
          ++ watch remove (fd_of rt.objects p) p (events_of (socket_at rt.objects p)) ∷ []

  remove_handle-Without :
      (p : ℕ) (rt : Runtime c)
      → IsConsistent c rt
      → find rt.all_handles (fd_of rt.objects p) ≡ some p
      → Without p rt (remove_handle c p rt)
  unfolding remove_handle current_load
  remove_handle-Without p rt inv here = record {
    gone = ground (arith, c.find-erase rt.all_handles fd fd);
    others = λ k n. ground (arith, c.find-erase rt.all_handles fd k);
    one_less = c.size-erase rt.all_handles fd p here;
    no_socket = ground (arith, c.has-erase rt.all_sockets p p, inv.sockets p);
    unlinked = ground (arith, runtime_of-set_runtime p none rt.objects p);
    alive = In-append p rt.removable_handles;
    unwatched = refl;
  }
    where
      fd : ℕ
      fd = fd_of rt.objects p

  -- Deregistering a registered handle takes it, and no other, out of the table and out of the set of
  -- sockets, removes it from epoll and unlinks it; it is kept among the handles to be released, so that
  -- pointers to it in the events at hand stay good.
  pub deregister_handle-Without :
      (p : ℕ) (rt : Runtime c)
      → IsConsistent c rt
      → find rt.all_handles (fd_of rt.objects p) ≡ some p
      → Without p rt (deregister_handle c p rt)
  unfolding deregister_handle drop_handle
  deregister_handle-Without p rt inv here =
      if_cases (Without p rt) rt.locked (λ t. absurd (ground (arith, inv.unlocked)))
        (λ _. go (find rt.all_handles (fd_of rt.objects p)) refl)
    where
      go :
          (o : Option ℕ)
          → find rt.all_handles (fd_of rt.objects p) ≡ o
          → Without p rt (drop_handle c p o rt)
      go none e = absurd (ground arith)
      go (some q) e =
          if_cases (Without p rt) (q == p) (λ _. remove_handle-Without p rt inv here)
            (λ n. absurd (ground arith))

  -- Deregistering a handle that is not registered changes nothing.
  pub deregister_handle-unregistered :
      (p : ℕ) (rt : Runtime c)
      → IsConsistent c rt
      → find rt.all_handles (fd_of rt.objects p) ≢ some p
      → deregister_handle c p rt ≡ rt
  unfolding deregister_handle drop_handle
  deregister_handle-unregistered p rt inv other =
      if_cases (λ (rt' : Runtime c). rt' ≡ rt) rt.locked
        (λ t. absurd (ground (arith, inv.unlocked)))
        (λ _. go (find rt.all_handles (fd_of rt.objects p)) refl)
    where
      go : (o : Option ℕ) → find rt.all_handles (fd_of rt.objects p) ≡ o → drop_handle c p o rt ≡ rt
      go none e = refl
      go (some q) e =
          if_cases (λ (rt' : Runtime c). rt' ≡ rt) (q == p) (λ t. absurd (other (ground arith)))
            (λ _. refl)

  pub unlinked_stays :
      (es : List (ℕ × ℕ)) (q : ℕ) (rt : Runtime c)
      → runtime_of rt.objects q ≡ none
      → runtime_of (release_each c es rt).objects q ≡ none
  unfolding release_each
  unlinked_stays [] q rt h = h
  unlinked_stays ((fd, p) ∷ es) q rt h =
      unlinked_stays es q _ (ground (arith, runtime_of-set_runtime p none rt.objects q))

  pub release_each-unlinks :
      (es : List (ℕ × ℕ)) (fd q : ℕ) (rt : Runtime c)
      → In (fd, q) es
      → runtime_of (release_each c es rt).objects q ≡ none
  unfolding release_each
  release_each-unlinks [] fd q rt m = absurd m
  release_each-unlinks ((k, p) ∷ es) fd q rt (inl e) =
      unlinked_stays es q _ (ground (arith, runtime_of-set_runtime p none rt.objects q))
  release_each-unlinks ((k, p) ∷ es) fd q rt (inr m) = release_each-unlinks es fd q _ m

  pub release_each-closings :
      (es : List (ℕ × ℕ)) (rt : Runtime c)
      → closings (release_each c es rt).effects ≡ closings rt.effects
  unfolding release_each
  release_each-closings [] rt = refl
  release_each-closings ((k, p) ∷ es) rt =
      release_each-closings es _
      ∙ omega (
        arith,
        closings-append rt.effects (watch remove k p (events_of (socket_at rt.objects p)) ∷ []),
      )

  pub release_each-open :
      (es : List (ℕ × ℕ)) (rt : Runtime c) (q : ℕ)
      → open_at (release_each c es rt).objects q ≡ open_at rt.objects q
  unfolding release_each
  release_each-open [] rt q = refl
  release_each-open ((k, p) ∷ es) rt q =
      release_each-open es _ q ∙ open_at-set_runtime p none rt.objects q

  pub release_each-stuck :
      (es : List (ℕ × ℕ)) (rt : Runtime c) → (release_each c es rt).stuck ≡ rt.stuck
  unfolding release_each
  release_each-stuck [] rt = refl
  release_each-stuck ((k, p) ∷ es) rt = release_each-stuck es _

  -- A handle among the entries is linked to no runtime behind the loop.
  pub release_each-alone :
      (es : List (ℕ × ℕ)) (q : ℕ) (rt : Runtime c)
      → occurs q (map (λ (e : ℕ × ℕ). e.1) es) ≡ true
      → runtime_of (release_each c es rt).objects q ≡ none
  unfolding release_each occurs
  release_each-alone [] q rt h = absurd (ground arith)
  release_each-alone ((k, p) ∷ es) q rt h = elim (Bool-cases (p == q)) [
    | inl t ↦ unlinked_stays es q _ (ground (arith, t, runtime_of-set_runtime p none rt.objects q))
    | inr n ↦ release_each-alone es q _ (ground (arith, n))
  ]

-- ===== src/Runtime/Destruction.antt =====
-- What the destructors of handles do that a `Runtime` (src/core/runtime.cpp) drops.
use spinet.Common.{
  ℕ, ◌+◌, ◌≡◌, ◌≢◌, refl, subst, ap, ◌∙◌, Bool, true, false, not, ◌&&◌, List, [], ◌∷◌, none, ◌==◌,
  if◌then◌else◌, inl, inr, arith, Bool-cases,
}
use spinet.Socket.Closed.{closings}
use spinet.Runtime.Interface.{Containers}
use spinet.Runtime.Store.{
  Object, acceptor, socket, is_socket, runtime_of, socket_at, open_at, is_open,
}
use spinet.Runtime.{Runtime, Fate, held, dropped, occurs, destroy, destroy_each}
use spinet.Runtime.Consistency.{Frame}
use spinet.Runtime.Closing.{close_handle-Frame}
use spinet.Runtime.Unlinked.{close_handle-Shut, close_handle-closings, count}
use spinet.Runtime.Orphans.{closes_fd, Distinct, to_close, to_close-same}

-- Whether a handle is an open socket behind its fate, where `b` tells if it was one.
abbrev pub left_open : Fate → (b : Bool) → Bool
left_open held b = b
left_open (dropped spurious) b = spurious && b

left_open-false : (f : Fate) → left_open f false ≡ false
left_open-false held = refl
left_open-false (dropped true) = refl
left_open-false (dropped false) = refl

left_open-twice : (f : Fate) (b : Bool) → left_open f (left_open f b) ≡ left_open f b
left_open-twice held b = refl
left_open-twice (dropped true) b = refl
left_open-twice (dropped false) b = refl

not_open : (o : Object) → is_socket o ≡ false → is_open o ≡ false
not_open (acceptor h) e = refl
not_open (socket s wire) e = absurd (ground arith)

module _ (c : Containers) where
  pub Frame-refl : (rt : Runtime c) → Frame c rt rt
  Frame-refl rt = record {
    same_self = refl;
    same_handles = λ k. refl;
    same_sockets = λ q. refl;
    same_locked = refl;
    same_stuck = refl;
    same_removable = refl;
    same_fd = λ q. refl;
    same_runtime = λ q. refl;
    same_kind = λ q. refl;
  }

  Frame-trans : {rt rt' rt'' : Runtime c} → Frame c rt rt' → Frame c rt' rt'' → Frame c rt rt''
  Frame-trans f g = record {
    same_self = g.same_self ∙ f.same_self;
    same_handles = λ k. g.same_handles k ∙ f.same_handles k;
    same_sockets = λ q. g.same_sockets q ∙ f.same_sockets q;
    same_locked = g.same_locked ∙ f.same_locked;
    same_stuck = g.same_stuck ∙ f.same_stuck;
    same_removable = g.same_removable ∙ f.same_removable;
    same_fd = λ q. g.same_fd q ∙ f.same_fd q;
    same_runtime = λ q. g.same_runtime q ∙ f.same_runtime q;
    same_kind = λ q. g.same_kind q ∙ f.same_kind q;
  }

  destroy-Frame :
      (f : Fate) (b : Bool) (p : ℕ) (rt : Runtime c)
      → runtime_of rt.objects p ≡ none
      → Frame c rt (destroy c f b p rt)
  unfolding destroy
  destroy-Frame held b p rt alone = Frame-refl rt
  destroy-Frame (dropped spurious) false p rt alone = Frame-refl rt
  destroy-Frame (dropped spurious) true p rt alone = close_handle-Frame c spurious p rt alone

  destroy-open :
      (f : Fate) (p : ℕ) (rt : Runtime c)
      → runtime_of rt.objects p ≡ none
      → open_at (destroy c f (socket_at rt.objects p) p rt).objects p
        ≡ left_open f (open_at rt.objects p)
  unfolding destroy
  destroy-open held p rt alone = refl
  destroy-open (dropped spurious) p rt alone = go (socket_at rt.objects p) refl
    where
      go :
          (b : Bool)
          → socket_at rt.objects p ≡ b
          → open_at (destroy c (dropped spurious) b p rt).objects p
            ≡ (spurious && open_at rt.objects p)
      go true e = (close_handle-Shut c spurious p rt alone).shut_at
      go false e = ground (arith, not_open (rt.objects p) e)

  destroy-others :
      (f : Fate) (b : Bool) (p q : ℕ) (rt : Runtime c)
      → runtime_of rt.objects p ≡ none
      → p ≢ q
      → open_at (destroy c f b p rt).objects q ≡ open_at rt.objects q
  unfolding destroy
  destroy-others held b p q rt alone n = refl
  destroy-others (dropped spurious) false p q rt alone n = refl
  destroy-others (dropped spurious) true p q rt alone n =
      ap is_open ((close_handle-Shut c spurious p rt alone).others q n)

  destroy-closings :
      (f : Fate) (p : ℕ) (rt : Runtime c)
      → runtime_of rt.objects p ≡ none
      → closings (destroy c f (socket_at rt.objects p) p rt).effects
        ≡ closings rt.effects + count (closes_fd f (open_at rt.objects p))
  unfolding destroy
  destroy-closings held p rt alone = omega arith
  destroy-closings (dropped spurious) p rt alone = go (socket_at rt.objects p) refl
    where
      go :
          (b : Bool)
          → socket_at rt.objects p ≡ b
          → closings (destroy c (dropped spurious) b p rt).effects
            ≡ closings rt.effects + count (not spurious && open_at rt.objects p)
      go true e = close_handle-closings c spurious p rt e alone
      go false e = ground (arith, not_open (rt.objects p) e)

  module _ (fates : ℕ → Fate) where
    -- The handles of a list are linked to no runtime.
    abbrev pub AllAlone : List ℕ → Runtime c → Type 0
    AllAlone ps rt = (p : ℕ) → occurs p ps ≡ true → runtime_of rt.objects p ≡ none

    abbrev first : ℕ → Runtime c → Runtime c
    first p rt = destroy c (fates p) (socket_at rt.objects p) p rt

    first-alone :
        (p : ℕ) (ps : List ℕ) (rt : Runtime c)
        → AllAlone (p ∷ ps) rt
        → runtime_of rt.objects p ≡ none
    unfolding occurs
    first-alone p ps rt h = h p (ground arith)

    rest-AllAlone :
        (p : ℕ) (ps : List ℕ) (rt : Runtime c) → AllAlone (p ∷ ps) rt → AllAlone ps (first p rt)
    unfolding occurs
    rest-AllAlone p ps rt h q i =
        (destroy-Frame (fates p) (socket_at rt.objects p) p rt (h p (ground arith))).same_runtime q
        ∙ h q (ground arith)

    pub destroy_each-Frame :
        (ps : List ℕ) (rt : Runtime c) → AllAlone ps rt → Frame c rt (destroy_each c fates ps rt)
    unfolding destroy_each
    destroy_each-Frame [] rt h = Frame-refl rt
    destroy_each-Frame (p ∷ ps) rt h =
        Frame-trans (destroy-Frame (fates p) (socket_at rt.objects p) p rt (first-alone p ps rt h))
          (destroy_each-Frame ps (first p rt) (rest-AllAlone p ps rt h))

    pub destroy_each-open :
        (ps : List ℕ) (rt : Runtime c) (q : ℕ)
        → AllAlone ps rt
        → open_at (destroy_each c fates ps rt).objects q ≡ (
            if occurs q ps
            then left_open (fates q) (open_at rt.objects q)
            else open_at rt.objects q)
    unfolding destroy_each occurs
    destroy_each-open [] rt q h = refl
    destroy_each-open (p ∷ ps) rt q h =
        destroy_each-open ps (first p rt) q (rest-AllAlone p ps rt h) ∙ elim (Bool-cases (p == q)) [
          | inl t ↦
              ground
                (arith, t, hit (ground arith), left_open-twice (fates q) (open_at rt.objects q))
          | inr n ↦ ground (
            arith,
            n,
            destroy-others (fates p) (socket_at rt.objects p) p q rt (first-alone p ps rt h)
                (λ e. ground arith),
          )
        ]
      where
        hit : p ≡ q → open_at (first p rt).objects q ≡ left_open (fates q) (open_at rt.objects q)
        hit e =
            subst (λ x. open_at (first p rt).objects x ≡ left_open (fates x) (open_at rt.objects x))
              e (destroy-open (fates p) p rt (first-alone p ps rt h))

    pub destroy_each-closings :
        (ps : List ℕ) (rt : Runtime c)
        → AllAlone ps rt
        → Distinct ps
        → closings (destroy_each c fates ps rt).effects
          ≡ closings rt.effects + to_close fates rt.objects ps
    unfolding destroy_each to_close Distinct
    destroy_each-closings [] rt h d = omega arith
    destroy_each-closings (p ∷ ps) rt h d = omega (
      arith,
      destroy_each-closings ps (first p rt) (rest-AllAlone p ps rt h) d.1,
      destroy-closings (fates p) p rt (first-alone p ps rt h),
      to_close-same fates rt.objects (first p rt).objects ps (λ q i.
          destroy-others (fates p) (socket_at rt.objects p) p q rt (first-alone p ps rt h)
            (λ e. ground (arith, d.0, i, ap (λ x. occurs x ps) e))),
    )

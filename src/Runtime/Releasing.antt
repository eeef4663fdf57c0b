-- ===== src/Runtime/Releasing.antt =====
-- `Runtime::release_all_handles` (src/core/runtime.cpp), with the destructors that run in it.
use spinet.Common.{
  not, ◌&&◌, ℕ, ◌+◌, ◌≡◌, refl, ◌∙◌, Bool, true, false, ◌||◌, none, some, List, [], ◌++◌, map, ◌⊎◌,
  inl, inr, if◌then◌else◌, arith,
}
use spinet.Socket.Closed.{closings}
use spinet.Runtime.Interface.{Containers, In}
use spinet.Runtime.Store.{fd_of, runtime_of, open_at}
use spinet.Runtime.{Runtime, Fate, occurs, orphans, release_each, destroy_each, release_all_handles}
use spinet.Runtime.Consistency.{Frame}
use spinet.Runtime.Removal.{
  unlinked_stays, release_each-unlinks, release_each-closings, release_each-open,
  release_each-stuck, release_each-alone,
}
use spinet.Runtime.Orphans.{
  Distinct, occurs-append, In-occurs, occurs-orphans, orphans-Distinct, Distinct-append, to_close,
  to_close-same, to_close-append,
}
use spinet.Runtime.Destruction.{
  left_open, AllAlone, destroy_each-Frame, destroy_each-open, destroy_each-closings,
}

module _ (c : Containers) where
  open c use {find, has, entries}

  -- Whether the runtime has a pointer to the handle at `p`, in the table or among the removed handles.
  abbrev pub owns : Runtime c → (p : ℕ) → Bool
  owns rt p =
      occurs p (map (λ (e : ℕ × ℕ). e.1) (entries rt.all_handles)) || occurs p rt.removable_handles

  -- What is left of a runtime behind `release_all_handles`. `gone` are the handles that it owned.
  pub record Released (fates : ℕ → Fate) (rt rt' : Runtime c) : Type 0 where
    pub no_handles : (k : ℕ) → find rt'.all_handles k ≡ none
    pub no_sockets : (q : ℕ) → has rt'.all_sockets q ≡ false
    pub none_removable : rt'.removable_handles ≡ []
    pub unlocked : rt'.locked ≡ false
    pub same_stuck : rt'.stuck ≡ rt.stuck
    pub unlinked : (fd p : ℕ) → find rt.all_handles fd ≡ some p → runtime_of rt'.objects p ≡ none
    pub flags :
        (p : ℕ)
        → open_at rt'.objects p
          ≡ (if owns rt p then left_open (fates p) (open_at rt.objects p) else open_at rt.objects p)
    pub gone : List ℕ
    pub distinct : Distinct gone
    pub all_gone : (p : ℕ) → occurs p gone ≡ owns rt p
    pub closed : closings rt'.effects ≡ closings rt.effects + to_close fates rt.objects gone

  -- A handle that waits among the removed ones is linked to no runtime, or registered again.
  abbrev pub IsRetired : Runtime c → Type 0
  IsRetired rt =
      (q : ℕ)
      → In q rt.removable_handles
      → (runtime_of rt.objects q ≡ none) ⊎ (find rt.all_handles (fd_of rt.objects q) ≡ some q)

  module _ (fates : ℕ → Fate) (rt : Runtime c) (retired : IsRetired rt) where
    abbrev table : List ℕ
    table = map (λ (e : ℕ × ℕ). e.1) (entries rt.all_handles)

    -- Those destroyed with the table, and those with the removed handles.
    abbrev first : List ℕ
    first = orphans (λ p. occurs p rt.removable_handles) table

    abbrev second : List ℕ
    second = orphans (λ p. false) rt.removable_handles

    in_first : (p : ℕ) → occurs p first ≡ (occurs p table && not (occurs p rt.removable_handles))
    in_first p = occurs-orphans (λ q. occurs q rt.removable_handles) p table

    in_second : (p : ℕ) → occurs p second ≡ occurs p rt.removable_handles
    in_second p = ground (arith, occurs-orphans (λ q. false) p rt.removable_handles)

    abbrev locked_rt : Runtime c
    locked_rt = record rt { locked = true }

    -- Behind the loop, and behind the destruction of the table.
    abbrev looped : Runtime c
    looped = record (release_each c (entries rt.all_handles) locked_rt) {
      all_handles = c.map_empty;
    }

    abbrev emptied : Runtime c
    emptied = record (destroy_each c fates first looped) {
      all_sockets = c.set_empty;
      removable_handles = [];
    }

    alone_first : AllAlone c fates first looped
    alone_first p h =
        release_each-alone c (entries rt.all_handles) p locked_rt (ground (arith, in_first p))

    first-Frame : Frame c looped (destroy_each c fates first looped)
    first-Frame = destroy_each-Frame c fates first looped alone_first

    alone_second : AllAlone c fates second emptied
    alone_second p h =
        first-Frame.same_runtime p
        ∙ elim (retired p (In-occurs p rt.removable_handles (ground (arith, in_second p)))) [
          | inl alone ↦ unlinked_stays c (entries rt.all_handles) p locked_rt alone
          | inr here ↦
              release_each-unlinks c (entries rt.all_handles) _ p locked_rt
                (c.in-entries rt.all_handles _ p here)
        ]

    second-Frame : Frame c emptied (destroy_each c fates second emptied)
    second-Frame = destroy_each-Frame c fates second emptied alone_second

    open_emptied :
        (p : ℕ)
        → open_at emptied.objects p ≡ (
            if occurs p first
            then left_open (fates p) (open_at rt.objects p)
            else open_at rt.objects p)
    open_emptied p = ground (
      arith,
      destroy_each-open c fates first looped p alone_first,
      release_each-open c (entries rt.all_handles) locked_rt p,
    )

    gone-Distinct : Distinct (first ++ second)
    gone-Distinct =
        Distinct-append first second (orphans-Distinct (λ p. occurs p rt.removable_handles) table)
          (orphans-Distinct (λ p. false) rt.removable_handles)
          (λ p h. ground (arith, in_first p, in_second p))

    gone_closed :
        closings (destroy_each c fates second emptied).effects
        ≡ closings rt.effects + to_close fates rt.objects (first ++ second)
    gone_closed = omega (
      arith,
      destroy_each-closings c fates second emptied alone_second
          (orphans-Distinct (λ p. false) rt.removable_handles),
      destroy_each-closings c fates first looped alone_first
          (orphans-Distinct (λ p. occurs p rt.removable_handles) table),
      release_each-closings c (entries rt.all_handles) locked_rt,
      to_close-append fates rt.objects first second,
      to_close-same fates rt.objects looped.objects first
          (λ q i. release_each-open c (entries rt.all_handles) locked_rt q),
      to_close-same fates rt.objects emptied.objects second
          (λ q i. ground (arith, open_emptied q, in_first q, in_second q)),
    )

    -- When the event loop ends, where each removed handle is linked to no runtime or registered again: the
    -- tables are empty, each handle that was registered is linked to no runtime, and the lock is free,
    -- without a destructor that has waited for it. A handle that others hold, or that the runtime did not
    -- own, is an open socket as far as it was one. A socket that nobody else holds is closed by its
    -- destructor, unless the exchange fails, and the descriptors closed are exactly as many as there are
    -- such open ones: a socket is closed once and no acceptor is.
    pub release_all_handles-Released : Released fates rt (release_all_handles c fates rt)
    unfolding release_all_handles
    release_all_handles-Released = record {
      no_handles = λ k. second-Frame.same_handles k ∙ first-Frame.same_handles k ∙ c.find-empty k;
      no_sockets = λ q. second-Frame.same_sockets q ∙ c.has-empty q;
      none_removable = second-Frame.same_removable;
      unlocked = refl;
      same_stuck =
          second-Frame.same_stuck
          ∙ first-Frame.same_stuck
          ∙ release_each-stuck c (entries rt.all_handles) locked_rt;
      unlinked = λ fd p h.
          second-Frame.same_runtime p
          ∙ first-Frame.same_runtime p
          ∙ release_each-unlinks c (entries rt.all_handles) fd p locked_rt
              (c.in-entries rt.all_handles fd p h);
      flags = λ p. ground (
        arith,
        destroy_each-open c fates second emptied p alone_second,
        open_emptied p,
        in_first p,
        in_second p,
      );
      gone = first ++ second;
      distinct = gone-Distinct;
      all_gone = λ p. ground (arith, occurs-append p first second, in_first p, in_second p);
      closed = gone_closed;
    }

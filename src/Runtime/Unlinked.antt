-- ===== src/Runtime/Unlinked.antt =====
-- What `close` of a handle that is linked to no runtime leaves (src/core/handle.cpp, src/core/tcp_socket.cpp).
use spinet.Common.{
  ℕ, suc, ◌+◌, ◌≡◌, ◌≢◌, refl, sym, ap, subst, ◌∙◌, Bool, true, false, not, ◌&&◌, none, List, [],
  ◌∷◌, ◌++◌, map, if◌then◌else◌, arith, All, All-append,
}
use spinet.Memory.{Memory}
use spinet.Handle.{Handle, Effect, close_fd}
use spinet.Handle
use spinet.Socket.{Socket, World, Entry, refusal}
use spinet.Socket.Closing.{shut}
use spinet.Socket.Closed.{closings, closings-append}
use spinet.Runtime.Interface.{Containers}
use spinet.Runtime.Store.{
  Object, acceptor, socket, runtime_of, handle_of, socket_at, open_at, is_open,
}
use spinet.Runtime.{Runtime, perform, close_as, close_handle}
use spinet.Runtime.Closing.{
  IsQuiet, refusals-IsQuiet, after_close, world_of, told_after, perform-quiet, stored,
  close_as-socket,
}

-- One where a test holds.
abbrev pub count : Bool → ℕ
count b = if b then 1 else 0

closings-refusals : (es : List Entry) → closings (map refusal es) ≡ 0
closings-refusals [] = refl
closings-refusals ((task, d) ∷ es) = closings-refusals es

closings-told_after : (s : Socket) → closings (told_after s) ≡ 0
closings-told_after s = omega (
  arith,
  closings-append (map refusal s.read_queue) (map refusal s.write_queue),
  closings-refusals s.read_queue,
  closings-refusals s.write_queue,
)

-- The effects and the flag of a socket behind its `close`.
record Closes (spurious : Bool) (s : Socket) (v : World) : Type 0 where
  quiet : All IsQuiet v.effects
  closed : v.socket.closed ≡ not (spurious && not s.closed)
  closes : closings v.effects ≡ count (not spurious && not s.closed)

after_close-Closes :
    (spurious : Bool) (m : Memory) (s : Socket) (wire : List ℕ)
    → s.handle.runtime ≡ none
    → Closes spurious s (after_close spurious (world_of m s wire))
unfolding Handle.close
after_close-Closes spurious m s wire alone = go spurious s.closed refl
  where
    w : World
    w = world_of m s wire

    bare : Handle.close s.handle ++ told_after s ≡ close_fd s.handle.fd ∷ told_after s
    bare = simp (alone, Handle.close)

    go :
        (spurious b : Bool)
        → s.closed ≡ b
        → Closes spurious s (if b then w else if spurious then w else shut w)
    go true true e = record { quiet = tt; closed = ground arith; closes = ground arith }
    go false true e = record { quiet = tt; closed = ground arith; closes = ground arith }
    go true false e = record { quiet = tt; closed = ground arith; closes = ground arith }
    go false false e = record {
      quiet = subst (All IsQuiet) (sym bare) (
        tt,
        All-append IsQuiet _ _ (refusals-IsQuiet s.read_queue) (refusals-IsQuiet s.write_queue),
      );
      closed = ground arith;
      closes = ap closings bare ∙ ap suc (closings-told_after s) ∙ ground arith;
    }

module _ (c : Containers) where
  -- What `close` of the handle at `p` leaves of the handles, and how many descriptors it closes.
  pub record Shut (spurious : Bool) (p : ℕ) (rt rt' : Runtime c) : Type 0 where
    pub shut_at : open_at rt'.objects p ≡ (spurious && open_at rt.objects p)
    pub others : (q : ℕ) → p ≢ q → rt'.objects q ≡ rt.objects q

  close_as-alone :
      (spurious : Bool) (p : ℕ) (s : Socket) (wire : List ℕ) (rt : Runtime c)
      → s.handle.runtime ≡ none
      → let v = after_close spurious (world_of rt.memory s wire) in
        close_as c spurious p (socket s wire) rt
        ≡ record (stored c p v rt) { effects = rt.effects ++ v.effects }
  close_as-alone spurious p s wire rt alone =
      close_as-socket c spurious p s wire rt
      ∙ perform-quiet c p _ _ (after_close-Closes spurious rt.memory s wire alone).quiet

  close_as-Shut :
      (spurious : Bool) (p : ℕ) (o : Object) (rt : Runtime c)
      → rt.objects p ≡ o
      → (handle_of o).runtime ≡ none
      → Shut spurious p rt (close_as c spurious p o rt)
  unfolding close_as perform Handle.close
  close_as-Shut spurious p (acceptor h) rt e alone =
      subst (λ es. Shut spurious p rt (perform c p es rt)) (sym bare)
        (record { shut_at = ground arith; others = λ q n. refl })
    where
      bare : Handle.close h ≡ close_fd h.fd ∷ []
      bare = simp (alone, Handle.close)
  close_as-Shut spurious p (socket s wire) rt e alone =
      subst (Shut spurious p rt) (sym (close_as-alone spurious p s wire rt alone)) (record {
        shut_at = ground (arith, (after_close-Closes spurious rt.memory s wire alone).closed);
        others = λ q n. ground arith;
      })

  pub close_handle-Shut :
      (spurious : Bool) (p : ℕ) (rt : Runtime c)
      → runtime_of rt.objects p ≡ none
      → Shut spurious p rt (close_handle c spurious p rt)
  unfolding close_handle
  close_handle-Shut spurious p rt alone = close_as-Shut spurious p (rt.objects p) rt refl alone

  pub close_handle-closings :
      (spurious : Bool) (p : ℕ) (rt : Runtime c)
      → socket_at rt.objects p ≡ true
      → runtime_of rt.objects p ≡ none
      → closings (close_handle c spurious p rt).effects
        ≡ closings rt.effects + count (not spurious && open_at rt.objects p)
  unfolding close_handle
  close_handle-closings spurious p rt kind alone = go (rt.objects p) refl
    where
      own : (s : Socket) (wire : List ℕ) → rt.objects p ≡ socket s wire → s.handle.runtime ≡ none
      own s wire e = sym (ap (λ (o : Object). (handle_of o).runtime) e) ∙ alone

      go :
          (o : Object)
          → rt.objects p ≡ o
          → closings (close_as c spurious p o rt).effects
            ≡ closings rt.effects + count (not spurious && is_open o)
      go (acceptor h) e = absurd (ground arith)
      go (socket s wire) e =
          ap (λ (rt' : Runtime c). closings rt'.effects)
            (close_as-alone spurious p s wire rt (own s wire e))
          ∙ closings-append rt.effects (after_close spurious (world_of rt.memory s wire)).effects
          ∙ ap (λ n. closings rt.effects + n)
              (after_close-Closes spurious rt.memory s wire (own s wire e)).closes

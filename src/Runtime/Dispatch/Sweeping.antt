-- ===== src/Runtime/Dispatch/Sweeping.antt =====
-- The sweep at the end of a turn of `Runtime::exec` (src/core/runtime.cpp): it calls every socket.
use spinet.Common.{ℕ, ◌+◌, ◌≡◌, refl, subst, true, inl, inr, List, [], ◌∷◌, ◌++◌, length, map}
use spinet.Runtime.Interface.{Containers, In}
use spinet.Runtime.{Runtime, Fate}
use spinet.Runtime.Dispatch.{
  Call, reads, writes, Moment, Visited, visit, run_events, run_sockets, sweep, turn,
}

module _ (c : Containers) where
  -- The calls of a trace.
  abbrev pub calls : List (Call × Runtime c) → List Call
  calls = map (λ (v : Call × Runtime c). v.0)

  calls-kept :
      (k : Call) (trace : List (Call × Runtime c)) (v : Call × Runtime c)
      → In k (calls trace)
      → In k (calls (trace ++ v ∷ []))
  calls-kept k (u ∷ trace) v (inl e) = inl e
  calls-kept k (u ∷ trace) v (inr i) = inr (calls-kept k trace v i)
  calls-kept k [] v i = absurd i

  calls-last :
      (trace : List (Call × Runtime c)) (v : Call × Runtime c) → In v.0 (calls (trace ++ v ∷ []))
  calls-last [] v = inl refl
  calls-last (u ∷ trace) v = inr (calls-last trace v)

  run_sockets-kept :
      (moments : ℕ → Moment) (i : ℕ) (ps : List ℕ) (v : Visited c) (k : Call)
      → In k (calls v.1)
      → In k (calls (run_sockets c moments i ps v).1)
  unfolding run_sockets visit
  run_sockets-kept moments i [] v k h = h
  run_sockets-kept moments i (p ∷ rest) v k h =
      run_sockets-kept moments (i + 2) rest _ k
        (calls-kept k _ _ (calls-kept k v.1 (reads p, v.0) h))

  run_sockets-serves :
      (moments : ℕ → Moment) (i : ℕ) (ps : List ℕ) (v : Visited c) (p : ℕ)
      → In p ps
      → In (reads p) (calls (run_sockets c moments i ps v).1)
        × In (writes p) (calls (run_sockets c moments i ps v).1)
  unfolding run_sockets visit
  run_sockets-serves moments i [] v p h = absurd h
  run_sockets-serves moments i (q ∷ rest) v p (inr h) =
      run_sockets-serves moments (i + 2) rest _ p h
  run_sockets-serves moments i (q ∷ rest) v p (inl e) =
      subst (λ x. In (reads x) (calls w.1) × In (writes x) (calls w.1)) e
        (
          run_sockets-kept moments (i + 2) rest _ (reads q)
              (calls-kept (reads q) _ _ (calls-last v.1 (reads q, v.0))),
          run_sockets-kept moments (i + 2) rest _ (writes q) (calls-last _ (writes q, _)),
        )
    where
      w : Visited c
      w =
          run_sockets c moments (i + 2) rest
            (visit c (moments (i + 1)) (writes q) (visit c (moments i) (reads q) v))

  -- Each socket that is in the set of sockets when the events of a turn are through is called in that turn
  -- to read and to write, whether or not epoll named it.
  pub turn-serves :
      (moments : ℕ → Moment) (fates : ℕ → Fate) (events : List (ℕ × ℕ)) (rt : Runtime c) (p : ℕ)
      → c.has (run_events c moments 0 events (rt, [])).0.all_sockets p ≡ true
      → In (reads p) (calls (turn c moments fates events rt).1)
        × In (writes p) (calls (turn c moments fates events rt).1)
  unfolding turn sweep
  turn-serves moments fates events rt p h =
      run_sockets-serves moments (length events) _ (run_events c moments 0 events (rt, [])) p
        (c.has-elements _ p h)

-- ===== src/Programs/Clients/Ending.antt =====
-- How the programs example/echo/async/client.cpp and client2.cpp end.
use spinet.Common.{
  ℕ, zero, suc, ◌+◌, ◌≡◌, ◌≢◌, refl, sym, subst, ◌⊎◌, inl, inr, length, length-append, Bool, false,
  Option, none, some, List, [], ◌∷◌, ◌++◌, All, Text, arith,
}
use spinet.Address.{Address, Net}
use spinet.Workers.{Workers}
use spinet.Client.{
  Attempt, Connection, socket, refused, bad_variant_access, Client, new_client, tcp_connect, run,
  stop,
}
use spinet.Client.State.{
  IsIdle, IsConfigured, with_settings-IsConfigured, run-IsConfigured, stop-IsConfigured,
  running-stop,
}
use spinet.Client.Connecting.{tcp_connect-IsConfigured, tcp_connect-answers}
use spinet.Address.Parsing.{IsPosix}
use spinet.Programs.{Run, goes_on, exits, throws}
use spinet.Programs.Clients.{
  ClientOptions, client_options, client2_options, Left, connected_next, connect_all, running,
  made_client, connect, leave, stay, begin_client, client2_main, client_main,
}

module _ (ws : Workers) (net : Net) where
  new_client-IsConfigured : IsConfigured ws (new_client ws)
  new_client-IsConfigured = record {
    unset_empty = λ _. refl;
    counted = λ st e. absurd (ground arith);
    positive = λ st e. absurd (ground arith);
    idle_workers = λ _. tt;
  }

  -- What the loop keeps: the client as its methods leave it, a connected socket for each call that went
  -- well, and no exception.
  record Sound (n : ℕ) (sockets : List ℕ) (l : Left ws net) : Type 0 where
    kept : IsConfigured ws l.client
    answered : (message : Text) → l.ending ≢ throws message
    connected_all : l.ending ≡ goes_on tt → length l.sockets ≡ length sockets + n

  module _ (posix : IsPosix net) where
    connected_next-Sound :
        (n : ℕ) (sockets : List ℕ) (c : Client ws) (r : Connection)
        (rest : List ℕ → Client ws → Left ws net)
        → IsConfigured ws c
        → r ≢ bad_variant_access
        → ((s : List ℕ) (d : Client ws) → IsConfigured ws d → Sound n s (rest s d))
        → Sound (suc n) sockets (connected_next ws net c sockets r rest)
    unfolding connected_next
    connected_next-Sound n sockets c (socket fd peer) rest h ok sound =
        let r = sound (sockets ++ fd ∷ []) c h in
        record {
          kept = r.kept;
          answered = r.answered;
          connected_all = λ e. omega (arith, r.connected_all e, length-append sockets (fd ∷ []));
        }
    connected_next-Sound n sockets c (refused message) rest h ok sound = record {
      kept = stop-IsConfigured ws c h;
      answered = λ message e. absurd (ground arith);
      connected_all = λ e. absurd (ground arith);
    }
    connected_next-Sound n sockets c bad_variant_access rest h ok sound = absurd (ok refl)

    connect_all-Sound :
        (kernel : ℕ → Attempt) (address : Address) (n i : ℕ) (sockets : List ℕ) (c : Client ws)
        → IsConfigured ws c
        → Sound n sockets (connect_all ws net kernel address n i sockets c)
    unfolding connect_all
    connect_all-Sound kernel address zero i sockets c h = record {
      kept = h;
      answered = λ message e. absurd (ground arith);
      connected_all = λ e. omega arith;
    }
    connect_all-Sound kernel address (suc n) i sockets c h =
        connected_next-Sound n sockets (tcp_connect ws net (kernel i) address c).0
          (tcp_connect ws net (kernel i) address c).2 (connect_all ws net kernel address n (i + 1))
          (tcp_connect-IsConfigured ws net (kernel i) address c h)
          (tcp_connect-answers ws net posix (kernel i) address c)
          (connect_all-Sound kernel address n (i + 1))

    failed-Sound :
        (n : ℕ) (c : Client ws) (error : Text)
        → IsConfigured ws c
        → Sound n [] (record { client = c; sockets = []; ending = exits error })
    failed-Sound n c error h = record {
      kept = h;
      answered = λ message e. absurd (ground arith);
      connected_all = λ e. absurd (ground arith);
    }

    running-Sound :
        (kernel : ℕ → Attempt) (o : ClientOptions) (r : Client ws × Option Text)
        → IsConfigured ws r.0
        → Sound o.times [] (running ws net kernel o r)
    unfolding running
    running-Sound kernel o (c, some error) h = failed-Sound o.times c error h
    running-Sound kernel o (c, none) h = connect_all-Sound kernel o.address o.times 0 [] c h

    made_client-Sound :
        (kernel : ℕ → Attempt) (spurious : Bool) (o : ClientOptions) (r : Client ws × Option Text)
        → IsConfigured ws r.0
        → Sound o.times [] (made_client ws net kernel spurious o r)
    unfolding made_client
    made_client-Sound kernel spurious o (c, some error) h = failed-Sound o.times c error h
    made_client-Sound kernel spurious o (c, none) h =
        running-Sound kernel o (run ws spurious c) (run-IsConfigured ws spurious c h)

    connect-Sound :
        (kernel : ℕ → Attempt) (spurious : Bool) (o : ClientOptions)
        → Sound o.times [] (connect ws net kernel spurious o)
    unfolding connect
    connect-Sound kernel spurious o =
        made_client-Sound kernel spurious o _
          (with_settings-IsConfigured ws _ (new_client ws) new_client-IsConfigured)

    -- A program that is over.
    abbrev IsOver : Left ws net → Type 0
    IsOver l = (l.client.running ≡ false) × All (IsIdle ws) l.client.workers

    stop-IsOver :
        (l : Left ws net)
        → IsConfigured ws l.client
        → (stop ws l.client).running ≡ false × All (IsIdle ws) (stop ws l.client).workers
    stop-IsOver l h = (
      running-stop ws l.client,
      (stop-IsConfigured ws l.client h).idle_workers (running-stop ws l.client),
    )

    leave-IsOver :
        (n : ℕ) (l : Left ws net) (ending : Run (Unit {0}))
        → Sound n [] l
        → l.ending ≡ ending
        → IsOver (leave ws net l ending)
    unfolding leave
    leave-IsOver n l (throws message) h e = absurd (h.answered message e)
    leave-IsOver n l (exits message) h e = stop-IsOver l h.kept
    leave-IsOver n l (goes_on _) h e = stop-IsOver l h.kept

    stay-IsOver :
        (n : ℕ) (l : Left ws net) (ending : Run (Unit {0}))
        → Sound n [] l
        → l.ending ≡ ending
        → IsOver (stay ws net l ending)
          ⊎ (((stay ws net l ending).ending ≡ goes_on tt)
              × (length (stay ws net l ending).sockets ≡ n))
    unfolding stay
    stay-IsOver n l (throws message) h e = absurd (h.answered message e)
    stay-IsOver n l (exits message) h e = inl (stop-IsOver l h.kept)
    stay-IsOver n l (goes_on _) h e = inr (e, omega (arith, h.connected_all e))

    client2-IsOver :
        (kernel : ℕ → Attempt) (spurious : Bool) (o : Run ClientOptions)
        → IsOver (
            leave ws net
              (begin_client ws net kernel spurious o)
              (begin_client ws net kernel spurious o).ending)
    unfolding begin_client leave
    client2-IsOver kernel spurious (goes_on o) =
        leave-IsOver o.times (connect ws net kernel spurious o)
          (connect ws net kernel spurious o).ending (connect-Sound kernel spurious o) refl
    client2-IsOver kernel spurious (exits message) =
        stop-IsOver (record { client = new_client ws; sockets = []; ending = exits message })
          new_client-IsConfigured
    client2-IsOver kernel spurious (throws message) = (refl, tt)

    -- Where the conversions of the C library do what POSIX says, however client2.cpp ends, for any arguments
    -- and whatever the kernel does: its client is stopped and none of its workers runs.
    pub client2_main-IsOver :
        (kernel : ℕ → Attempt) (spurious : Bool) (argv : List Text)
        → ((client2_main ws net kernel spurious argv).client.running ≡ false)
          × All (IsIdle ws) (client2_main ws net kernel spurious argv).client.workers
    unfolding client2_main
    client2_main-IsOver kernel spurious argv =
        client2-IsOver kernel spurious (client2_options net argv)

    -- With arguments that it accepts, client.cpp either ends with its client stopped and none of its workers
    -- running, or comes to its endless loop with as many connected sockets as it was asked for.
    pub client_main-stays :
        (kernel : ℕ → Attempt) (spurious : Bool) (argv : List Text) (o : ClientOptions)
        → client_options net argv ≡ goes_on o
        → (((client_main ws net kernel spurious argv).client.running ≡ false)
            × All (IsIdle ws) (client_main ws net kernel spurious argv).client.workers)
          ⊎ (((client_main ws net kernel spurious argv).ending ≡ goes_on tt)
              × (length (client_main ws net kernel spurious argv).sockets ≡ o.times))
    unfolding client_main begin_client
    client_main-stays kernel spurious argv o accepted =
        subst
          (λ r.
            IsOver (
              stay ws net (begin_client ws net kernel spurious r)
                (begin_client ws net kernel spurious r).ending)
            ⊎ (((stay ws net (begin_client ws net kernel spurious r)
                    (begin_client ws net kernel spurious r).ending).ending
                  ≡ goes_on tt)
                × (length
                      (stay ws net (begin_client ws net kernel spurious r)
                        (begin_client ws net kernel spurious r).ending).sockets
                    ≡ o.times)))
          (sym accepted)
          (stay-IsOver o.times (connect ws net kernel spurious o)
            (connect ws net kernel spurious o).ending (connect-Sound kernel spurious o) refl)

-- ===== src/Programs/Serving.antt =====
-- What the serving programs under example/ do behind their arguments: one server, which runs for a minute.
use spinet.Common.{
  ℕ, ◌%◌, ◌^◌, ◌<◌, ◌≡◌, refl, ap, ◌∙◌, Bool, false, Option, none, some, ◌⊎◌, inl, inr, List, [],
  All, Text, codes, length, pos, to_uint16, arith,
}
use spinet.Address.{Address, Net}
use spinet.Workers.{Workers}
use spinet.Server.{
  Settings, Attempt, Server, new_server, with_settings, listen_tcp_endpoint, run, stop,
}
use spinet.Server.State.{
  IsIdle, IsConfigured, with_settings-IsConfigured, listen_tcp_endpoint-IsConfigured,
  run-IsConfigured, stop-IsConfigured, running-stop,
}
use spinet.Server.Kept.{
  settings-listen_tcp_endpoint, settings-run, settings-stop, stop-new_server,
  with_settings-new_server,
}
use spinet.Programs.{◌>>=◌, Run, goes_on, exits, throws, Options, http_options, echo_options}

module _ (ws : Workers) (net : Net) where
  -- A server as `main` leaves it, with the way in which it ends.
  abbrev pub Finished : Type 0
  Finished = Server ws × Run (Unit {0})

  -- Behind `listen_tcp_endpoint`: the minute in which the server runs in a thread of its own.
  unfoldable pub ran : (spurious : Bool) → Server ws → Option Text → Finished
  ran spurious s (some error) = (s, exits error)
  ran spurious s none = (stop ws (run ws spurious s).0, goes_on tt)

  -- Behind `with_settings`.
  unfoldable pub listened :
      (kernel : ℕ → Attempt) → (spurious : Bool) → Address → Server ws → Option Text → Finished
  unfolding ran
  listened kernel spurious address s (some error) = (s, exits error)
  listened kernel spurious address s none =
      let (s', closed, error) = listen_tcp_endpoint ws net kernel address s in ran spurious s' error

  abbrev pub settings_of : Options → Settings
  settings_of o = record { workers = to_uint16 (pos o.worker_threads); reuse_port = false }

  -- The destructor of the server stands at the end.
  unfoldable pub made :
      (kernel : ℕ → Attempt) → (spurious : Bool) → Address → Server ws × Option Text → Finished
  unfolding listened
  made kernel spurious address (s, error) =
      let (s', ending) = listened kernel spurious address s error in (stop ws s', ending)

  unfoldable pub serve : (kernel : ℕ → Attempt) → (spurious : Bool) → Options → Finished
  unfolding made
  serve kernel spurious o =
      made kernel spurious o.address (with_settings ws (settings_of o) (new_server ws))

  -- Where `main` ends before it has made its server, a new one stands for that.
  unfoldable pub begin : (kernel : ℕ → Attempt) → (spurious : Bool) → Run Options → Finished
  unfolding serve
  begin kernel spurious (goes_on o) = serve kernel spurious o
  begin kernel spurious (exits message) = (new_server ws, exits message)
  begin kernel spurious (throws message) = (new_server ws, throws message)

  unfoldable pub http_main : (kernel : ℕ → Attempt) → (spurious : Bool) → List Text → Finished
  unfolding begin
  http_main kernel spurious argv = begin kernel spurious (http_options net argv)

  pub echo_main : (kernel : ℕ → Attempt) → (spurious : Bool) → List Text → Finished
  unfolding begin
  echo_main kernel spurious argv = begin kernel spurious (do p ← echo_options net argv; goes_on p.0)

  new_server-IsConfigured : IsConfigured ws (new_server ws)
  new_server-IsConfigured = record {
    unset_empty = λ _. refl;
    counted = λ st e. absurd (ground arith);
    positive = λ st e. absurd (ground arith);
    idle_workers = λ _. tt;
  }

  ran-IsConfigured :
      (spurious : Bool) (s : Server ws) (error : Option Text)
      → IsConfigured ws s
      → IsConfigured ws (ran spurious s error).0
  unfolding ran
  ran-IsConfigured spurious s (some error) h = h
  ran-IsConfigured spurious s none h =
      stop-IsConfigured ws (run ws spurious s).0 (run-IsConfigured ws spurious s h)

  listened-IsConfigured :
      (kernel : ℕ → Attempt) (spurious : Bool) (address : Address) (s : Server ws)
      (error : Option Text)
      → IsConfigured ws s
      → IsConfigured ws (listened kernel spurious address s error).0
  unfolding listened
  listened-IsConfigured kernel spurious address s (some error) h = h
  listened-IsConfigured kernel spurious address s none h =
      ran-IsConfigured spurious (listen_tcp_endpoint ws net kernel address s).0
        (listen_tcp_endpoint ws net kernel address s).2
        (listen_tcp_endpoint-IsConfigured ws net kernel address s h)

  -- A program that has ended.
  abbrev pub IsOver : Finished → Type 0
  IsOver f = (f.0.running ≡ false) × All (IsIdle ws) f.0.workers

  made-IsConfigured :
      (kernel : ℕ → Attempt) (spurious : Bool) (address : Address) (m : Server ws × Option Text)
      → IsConfigured ws m.0
      → IsConfigured ws (made kernel spurious address m).0
        × ((made kernel spurious address m).0.running ≡ false)
  unfolding made
  made-IsConfigured kernel spurious address (s, error) h = (
    stop-IsConfigured ws left (listened-IsConfigured kernel spurious address s error h),
    running-stop ws left,
  )
    where
      left : Server ws
      left = (listened kernel spurious address s error).0

  serve-IsConfigured :
      (kernel : ℕ → Attempt) (spurious : Bool) (o : Options)
      → IsConfigured ws (serve kernel spurious o).0 × ((serve kernel spurious o).0.running ≡ false)
  unfolding serve
  serve-IsConfigured kernel spurious o =
      made-IsConfigured kernel spurious o.address (with_settings ws (settings_of o) (new_server ws))
        (with_settings-IsConfigured ws (settings_of o) (new_server ws) new_server-IsConfigured)

  serve-IsOver :
      (kernel : ℕ → Attempt) (spurious : Bool) (o : Options) → IsOver (serve kernel spurious o)
  serve-IsOver kernel spurious o =
      let (kept, off) = serve-IsConfigured kernel spurious o in (off, kept.idle_workers off)

  begin-IsOver :
      (kernel : ℕ → Attempt) (spurious : Bool) (o : Run Options) → IsOver (begin kernel spurious o)
  unfolding begin
  begin-IsOver kernel spurious (goes_on o) = serve-IsOver kernel spurious o
  begin-IsOver kernel spurious (exits message) = (refl, tt)
  begin-IsOver kernel spurious (throws message) = (refl, tt)

  -- However the HTTP and echo servers end, for any arguments and whatever the kernel does: their server is
  -- stopped and none of its workers runs.
  pub mains-IsOver :
      (kernel : ℕ → Attempt) (spurious : Bool) (argv : List Text)
      → IsOver (http_main kernel spurious argv) × IsOver (echo_main kernel spurious argv)
  unfolding http_main echo_main
  mains-IsOver kernel spurious argv =
      (begin-IsOver kernel spurious _, begin-IsOver kernel spurious _)

  settings-ran :
      (spurious : Bool) (s : Server ws) (error : Option Text)
      → (ran spurious s error).0.settings ≡ s.settings
  unfolding ran
  settings-ran spurious s (some error) = refl
  settings-ran spurious s none = settings-stop ws (run ws spurious s).0 ∙ settings-run ws spurious s

  settings-listened :
      (kernel : ℕ → Attempt) (spurious : Bool) (address : Address) (s : Server ws)
      (error : Option Text)
      → (listened kernel spurious address s error).0.settings ≡ s.settings
  unfolding listened
  settings-listened kernel spurious address s (some error) = refl
  settings-listened kernel spurious address s none =
      settings-ran spurious (listen_tcp_endpoint ws net kernel address s).0
        (listen_tcp_endpoint ws net kernel address s).2
      ∙ settings-listen_tcp_endpoint ws net kernel address s

  settings-made :
      (kernel : ℕ → Attempt) (spurious : Bool) (address : Address) (m : Server ws × Option Text)
      → (made kernel spurious address m).0.settings ≡ m.0.settings
  unfolding made
  settings-made kernel spurious address (s, error) =
      settings-stop ws (listened kernel spurious address s error).0
      ∙ settings-listened kernel spurious address s error

  made-refused :
      (kernel : ℕ → Attempt) (spurious : Bool) (address : Address) (message : Text)
      → made kernel spurious address (new_server ws, some message) ≡ (new_server ws, exits message)
  unfolding made listened
  made-refused kernel spurious address message =
      ap (λ (s : Server ws). (s, exits message)) (stop-new_server ws)

  -- The number of threads asked for is taken modulo 2 ^ 16: where that is zero, although the number was
  -- accepted as above zero, the program ends with the complaint of the settings and its server has no
  -- worker; otherwise its server has that many.
  pub serve_wraps :
      (kernel : ℕ → Attempt) (spurious : Bool) (o : Options)
      → ((o.worker_threads % 2 ^ 16 ≡ 0)
          × ((serve kernel spurious o).1 ≡ exits (codes "workers must be more than zero"))
          × ((serve kernel spurious o).0.workers ≡ []))
        ⊎ ((0 < o.worker_threads % 2 ^ 16)
            × (length (serve kernel spurious o).0.workers ≡ o.worker_threads % 2 ^ 16))
  unfolding serve
  serve_wraps kernel spurious o = elim (with_settings-new_server ws (settings_of o)) [
    | inl (zero_workers, e) ↦ inl (
      zero_workers,
      ap (λ (f : Finished). f.1) (refused e),
      ap (λ (f : Finished). f.0.workers) (refused e),
    )
    | inr (some_workers, e) ↦ inr (
      some_workers,
      (serve-IsConfigured kernel spurious o).0.counted (settings_of o) (
          settings-made kernel spurious o.address (with_settings ws (settings_of o) (new_server ws))
          ∙ ap (λ (m : Server ws × Option Text). m.0.settings) e),
    )
  ]
    where
      refused :
          {message : Text}
          → with_settings ws (settings_of o) (new_server ws) ≡ (new_server ws, some message)
          → serve kernel spurious o ≡ (new_server ws, exits message)
      refused {message} e =
          ap (made kernel spurious o.address) e ∙ made-refused kernel spurious o.address message

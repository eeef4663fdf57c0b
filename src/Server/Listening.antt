-- ===== src/Server/Listening.antt =====
-- The descriptors that `listen_tcp_endpoint` (src/server.cpp) opens.
use spinet.Common.{
  ℕ, zero, suc, ◌+◌, ◌≡◌, refl, sym, ap, subst, ◌∙◌, Bool, true, false, ◌&&◌, ◌⊎◌, inl, inr, Option,
  none, some, List, [], ◌∷◌, ◌++◌, length, Text, if◌then◌else◌, arith,
}
use mathlib.Core.List.{append-nil, append_assoc}
use spinet.Address.{Address, Net, SockaddrIn, to_sockaddr_in}
use spinet.Workers.{Workers}
use spinet.Server.{
  Settings, Attempt, socket_failed, bind_failed, listen_failed, listening, Opening, opened, failed,
  open_next, open_all, Server, register_all, finish_listening, listen_at, listen_tcp_endpoint,
  unset, already_running, not_set,
}

pub listens : Attempt → Bool
listens (listening fd) = true
listens _ = false

-- The attempts of the workers from `i` on, of which there are `n`, to the first that does not listen.
pub attempts : (kernel : ℕ → Attempt) → (n i : ℕ) → List Attempt
unfolding listens
attempts kernel zero i = []
attempts kernel (suc n) i =
    kernel i ∷ (if listens (kernel i) then attempts kernel n (i + 1) else [])

-- The descriptors that `socket` gave in these.
pub sockets : List Attempt → List ℕ
sockets [] = []
sockets (socket_failed errno ∷ rest) = sockets rest
sockets (bind_failed fd errno ∷ rest) = fd ∷ sockets rest
sockets (listen_failed fd errno ∷ rest) = fd ∷ sockets rest
sockets (listening fd ∷ rest) = fd ∷ sockets rest

pub all_listen : List Attempt → Bool
unfolding listens
all_listen [] = true
all_listen (a ∷ rest) = listens a && all_listen rest

-- Each of the next `n` descriptors from `i` on comes to listen.
unfoldable pub each_listens : (kernel : ℕ → Attempt) → (n i : ℕ) → Bool
unfolding listens
each_listens kernel zero i = true
each_listens kernel (suc n) i = listens (kernel i) && each_listens kernel n (i + 1)

all_listen-attempts :
    (kernel : ℕ → Attempt) (n i : ℕ) → all_listen (attempts kernel n i) ≡ each_listens kernel n i
unfolding all_listen attempts each_listens
all_listen-attempts kernel zero i = refl
all_listen-attempts kernel (suc n) i =
    go (listens (kernel i)) (all_listen-attempts kernel n (i + 1))
  where
    go :
        (b : Bool)
        → all_listen (attempts kernel n (i + 1)) ≡ each_listens kernel n (i + 1)
        → (b && all_listen (if b then attempts kernel n (i + 1) else []))
          ≡ (b && each_listens kernel n (i + 1))
    go true rest = rest
    go false rest = refl

-- That a method gave no message.
unfoldable pub told : Option Text → Bool
told none = true
told (some message) = false

descriptors : Opening → List ℕ
descriptors (opened fds) = fds
descriptors (failed message closed) = closed

succeeds : Opening → Bool
succeeds (opened fds) = true
succeeds (failed message closed) = false

module _ (net : Net) (a : SockaddrIn) (kernel : ℕ → Attempt) where
  open_all_lem :
      (n i : ℕ) (fds : List ℕ)
      → (descriptors (open_all net a kernel n i fds) ≡ fds ++ sockets (attempts kernel n i))
        × (succeeds (open_all net a kernel n i fds) ≡ all_listen (attempts kernel n i))
  unfolding open_all open_next attempts sockets all_listen descriptors succeeds listens
  open_all_lem zero i fds = (sym (append-nil fds), refl)
  open_all_lem (suc n) i fds = go (kernel i) (λ l. open_all_lem n (i + 1) l)
    where
      go :
          (o : Attempt)
          → ((l : List ℕ)
              → (descriptors (open_all net a kernel n (i + 1) l)
                  ≡ l ++ sockets (attempts kernel n (i + 1)))
                × (succeeds (open_all net a kernel n (i + 1) l)
                    ≡ all_listen (attempts kernel n (i + 1))))
          → (descriptors (open_next net a fds o (open_all net a kernel n (i + 1)))
              ≡ fds ++ sockets (o ∷ (if listens o then attempts kernel n (i + 1) else [])))
            × (succeeds (open_next net a fds o (open_all net a kernel n (i + 1)))
                ≡ all_listen (o ∷ (if listens o then attempts kernel n (i + 1) else [])))
      go (socket_failed errno) rest = (sym (append-nil fds), refl)
      go (bind_failed fd errno) rest = (refl, refl)
      go (listen_failed fd errno) rest = (refl, refl)
      go (listening fd) rest = (
        (rest (fds ++ fd ∷ [])).0
            ∙ append_assoc fds (fd ∷ []) (sockets (attempts kernel n (i + 1))),
        (rest (fds ++ fd ∷ [])).1,
      )

length-sockets :
    (kernel : ℕ → Attempt) (n i : ℕ)
    → all_listen (attempts kernel n i) ≡ true
    → length (sockets (attempts kernel n i)) ≡ n
unfolding attempts sockets all_listen listens
length-sockets kernel zero i all = refl
length-sockets kernel (suc n) i all = go (kernel i) all (length-sockets kernel n (i + 1))
  where
    go :
        (o : Attempt)
        → all_listen (o ∷ (if listens o then attempts kernel n (i + 1) else [])) ≡ true
        → (all_listen (attempts kernel n (i + 1)) ≡ true
            → length (sockets (attempts kernel n (i + 1))) ≡ n)
        → length (sockets (o ∷ (if listens o then attempts kernel n (i + 1) else []))) ≡ suc n
    go (socket_failed errno) all rest = absurd (ground arith)
    go (bind_failed fd errno) all rest = absurd (ground arith)
    go (listen_failed fd errno) all rest = absurd (ground arith)
    go (listening fd) all rest = ap suc (rest all)

module _ (ws : Workers) (net : Net) (kernel : ℕ → Attempt) where
  listens_as :
      (address : Address) (settings : Settings) (a : SockaddrIn) (s : Server ws)
      → s.running ≡ false
      → s.settings ≡ some settings
      → to_sockaddr_in net address.address address.port ≡ inl a
      → listen_tcp_endpoint ws net kernel address s
        ≡ finish_listening ws s (open_all net a kernel (length s.workers) 0 [])
  unfolding listen_tcp_endpoint listen_at unset
  listens_as address settings a s off set ok =
      go s.running s.settings off set ∙ ap (λ r. listen_at ws net kernel r s) ok
    where
      go :
          (b : Bool) (o : Option Settings)
          → b ≡ false
          → o ≡ some settings
          → (if b
              then (s, [], some already_running)
              else if unset o
              then (s, [], some not_set)
              else listen_at ws net kernel (to_sockaddr_in net address.address address.port) s)
            ≡ listen_at ws net kernel (to_sockaddr_in net address.address address.port) s
      go true o off set = absurd (ground arith)
      go false none off set = absurd (ground arith)
      go false (some q) off set = refl

  finish_listening-opens :
      (o : Opening) (tries : List Attempt) (s : Server ws)
      → descriptors o ≡ sockets tries
      → succeeds o ≡ all_listen tries
      → (all_listen tries ≡ true → length (sockets tries) ≡ length s.workers)
      → ((all_listen tries ≡ true)
          × (length (sockets tries) ≡ length s.workers)
          × (finish_listening ws s o
              ≡ (record s { workers = register_all ws s.workers (sockets tries) }, [], none)))
        ⊎ ((all_listen tries ≡ false)
            × ((message : Text) × (finish_listening ws s o ≡ (s, sockets tries, some message))))
  unfolding finish_listening descriptors succeeds
  finish_listening-opens (opened fds) tries s d b counted = inl (
    sym b,
    counted (sym b),
    ap (λ l. (record s { workers = register_all ws s.workers l }, [], none)) d,
  )
  finish_listening-opens (failed message closed) tries s d b counted =
      inr (sym b, (message, ap (λ l. (s, l, some message)) d))

  -- What `listen_tcp_endpoint` does on an idle server with settings and for an address that is understood:
  -- if every worker's descriptor comes to listen, each worker gets its own and none is closed; otherwise
  -- it closes every descriptor that it opened, once and in order, reports, and leaves the server alone.
  pub listen_tcp_endpoint-opens :
      (address : Address) (settings : Settings) (a : SockaddrIn) (s : Server ws)
      → s.running ≡ false
      → s.settings ≡ some settings
      → to_sockaddr_in net address.address address.port ≡ inl a
      → ((all_listen (attempts kernel (length s.workers) 0) ≡ true)
          × (length (sockets (attempts kernel (length s.workers) 0)) ≡ length s.workers)
          × (listen_tcp_endpoint ws net kernel address s ≡ (
            record s {
              workers = register_all ws s.workers (sockets (attempts kernel (length s.workers) 0));
            },
            [],
            none,
          )))
        ⊎ ((all_listen (attempts kernel (length s.workers) 0) ≡ false)
            × ((message : Text) × (listen_tcp_endpoint ws net kernel address s
                  ≡ (s, sockets (attempts kernel (length s.workers) 0), some message))))
  listen_tcp_endpoint-opens address settings a s off set ok =
      subst
        (λ (r : Server ws × List ℕ × Option Text).
          ((all_listen (attempts kernel (length s.workers) 0) ≡ true)
            × (length (sockets (attempts kernel (length s.workers) 0)) ≡ length s.workers)
            × (r ≡ (
              record s {
                workers =
                    register_all ws s.workers (sockets (attempts kernel (length s.workers) 0));
              },
              [],
              none,
            )))
          ⊎ ((all_listen (attempts kernel (length s.workers) 0) ≡ false)
              × ((message : Text) × (r
                    ≡ (s, sockets (attempts kernel (length s.workers) 0), some message)))))
        (sym (listens_as address settings a s off set ok))
        (finish_listening-opens (open_all net a kernel (length s.workers) 0 [])
          (attempts kernel (length s.workers) 0) s
          (open_all_lem net a kernel (length s.workers) 0 []).0
          (open_all_lem net a kernel (length s.workers) 0 []).1
          (length-sockets kernel (length s.workers) 0))

  told-finish_listening :
      (o : Opening) (s : Server ws) → told (finish_listening ws s o).2 ≡ succeeds o
  unfolding finish_listening succeeds told
  told-finish_listening (opened fds) s = refl
  told-finish_listening (failed message closed) s = refl

  pub told-listen_at :
      (a : SockaddrIn) (s : Server ws)
      → told (listen_at ws net kernel (inl a) s).2 ≡ each_listens kernel (length s.workers) 0
  unfolding listen_at
  told-listen_at a s =
      told-finish_listening (open_all net a kernel (length s.workers) 0 []) s
      ∙ ((open_all_lem net a kernel (length s.workers) 0 []).1
          ∙ all_listen-attempts kernel (length s.workers) 0)

-- ===== src/Runtime/Store.antt =====
-- The handles that a `Runtime` (src/core/runtime.cpp) deals with, as objects at addresses:
-- `TcpSocket`, and `TcpAcceptor` (src/server.cpp) as far as it is a handle.
use spinet.Common.{ℕ, ◌≡◌, ◌≢◌, Bool, true, false, not, Option, List, ◌==◌, if◌then◌else◌, arith}
use spinet.Handle.{Handle}
use spinet.Socket.{Socket}

-- A socket stands with the bytes sent on its connection.
pub data Object : Type 0 where
  acceptor : Handle → Object
  socket : Socket → (wire : List ℕ) → Object

abbrev pub handle_of : Object → Handle
handle_of (acceptor h) = h
handle_of (socket s wire) = s.handle

-- Whether `dynamic_cast<BaseSocket*>` succeeds.
abbrev pub is_socket : Object → Bool
is_socket (acceptor h) = false
is_socket (socket s wire) = true

-- Whether it is a socket that is not closed.
abbrev pub is_open : Object → Bool
is_open (acceptor h) = false
is_open (socket s wire) = not s.closed

-- An assignment to `runtime_`.
abbrev pub with_runtime : Option ℕ → Object → Object
with_runtime r (acceptor h) = acceptor (record h { runtime = r })
with_runtime r (socket s wire) = socket (record s { handle = linked }) wire
  where
    open s use {handle}

    linked : Handle
    linked = record handle { runtime = r }

abbrev pub Objects : Type 0
Objects = ℕ → Object

abbrev pub put : Objects → ℕ → Object → Objects
put objects p o q = if p == q then o else objects q

abbrev pub fd_of : Objects → ℕ → ℕ
fd_of objects p = (handle_of (objects p)).fd

abbrev pub runtime_of : Objects → ℕ → Option ℕ
runtime_of objects p = (handle_of (objects p)).runtime

abbrev pub socket_at : Objects → ℕ → Bool
socket_at objects p = is_socket (objects p)

abbrev pub open_at : Objects → ℕ → Bool
open_at objects p = is_open (objects p)

pub set_runtime : ℕ → Option ℕ → Objects → Objects
set_runtime p r objects = put objects p (with_runtime r (objects p))

pub fd_of-set_runtime :
    (p : ℕ) (r : Option ℕ) (objects : Objects) (q : ℕ)
    → fd_of (set_runtime p r objects) q ≡ fd_of objects q
unfolding set_runtime
fd_of-set_runtime p r objects q = ground arith

pub runtime_of-set_runtime :
    (p : ℕ) (r : Option ℕ) (objects : Objects) (q : ℕ)
    → runtime_of (set_runtime p r objects) q ≡ (if p == q then r else runtime_of objects q)
unfolding set_runtime
runtime_of-set_runtime p r objects q = ground arith

pub socket_at-set_runtime :
    (p : ℕ) (r : Option ℕ) (objects : Objects) (q : ℕ)
    → socket_at (set_runtime p r objects) q ≡ socket_at objects q
unfolding set_runtime
socket_at-set_runtime p r objects q = ground arith

pub set_runtime_self :
    (p : ℕ) (r : Option ℕ) (objects : Objects) (o : Object)
    → objects p ≡ o
    → set_runtime p r objects p ≡ with_runtime r o
unfolding set_runtime
set_runtime_self p r objects o e = ground arith

pub set_runtime_ne :
    (p : ℕ) (r : Option ℕ) (objects : Objects) (q : ℕ)
    → p ≢ q
    → set_runtime p r objects q ≡ objects q
unfolding set_runtime
set_runtime_ne p r objects q n = ground arith

pub open_at-set_runtime :
    (p : ℕ) (r : Option ℕ) (objects : Objects) (q : ℕ)
    → open_at (set_runtime p r objects) q ≡ open_at objects q
unfolding set_runtime
open_at-set_runtime p r objects q = ground arith

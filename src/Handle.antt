-- ===== src/Handle.antt =====
-- include/spinet/core/handle.h and src/core/handle.cpp: the part that acceptors and sockets share.
use spinet.Common.{ℕ, Option, none, some, List, [], ◌∷◌}
use spinet.Result.{Result}

-- `fd_` and `runtime_`, which names the runtime that the handle is registered with, if that is alive.
pub record Handle : Type 0 where
  pub fd : ℕ
  pub runtime : Option ℕ

-- EPOLL_CTL_ADD, EPOLL_CTL_MOD and EPOLL_CTL_DEL
pub data Ctl : Type 0 where
  add modify remove : Ctl

-- What the methods of handles and of runtimes do outside the object: a call of
-- `Runtime::deregister_handle`, of `close` or of `epoll_ctl`, this with its descriptor, pointer and
-- events, and the invocation of a caller's function with its two arguments.
pub data Effect : Type 0 where
  deregister : (runtime : ℕ) → Effect
  close_fd : (fd : ℕ) → Effect
  watch : Ctl → (fd pointer events : ℕ) → Effect
  notify : (callback : ℕ) → Result → (finished : ℕ) → Effect

-- Handle::close
unfoldable pub close : Handle → List Effect
close h = elim h.runtime [ none ↦ close_fd h.fd ∷ [] | some r ↦ deregister r ∷ close_fd h.fd ∷ [] ]

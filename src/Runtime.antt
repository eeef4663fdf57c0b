-- ===== src/Runtime.antt =====
-- `Runtime` (src/core/runtime.h, src/core/runtime.cpp): the registry of handles that one event loop
-- serves. Handles are named by numbers, their addresses; `objects` is what stands there. The methods
-- below run under `handles_mtx_`, and call the methods of handles as the source does.
pub mod Interface
pub mod Store
pub mod Lifecycle
pub mod Dispatch
pub mod Serving
pub mod Small
mod Tests
pub mod Tables
pub mod Replacement
pub mod Removal
pub mod Releasing
pub mod Registration
pub mod Retirement
pub mod Closing
pub mod Destruction
pub mod Orphans
pub mod Unlinked
pub mod Consistency
use spinet.Common.{
  ℕ, ◌≡◌, Bool, true, false, Option, none, some, List, [], ◌∷◌, ◌++◌, ◌==◌, ◌||◌, map,
  if◌then◌else◌,
}
use spinet.Memory.{Memory}
use spinet.Handle.{Handle, Effect, deregister, close_fd, watch, notify, add, modify, remove}
use spinet.Handle
use spinet.Socket.{Socket, World}
use spinet.Socket
use Interface.{Containers}
use Store.{Object, acceptor, socket, Objects, handle_of, fd_of, socket_at, put, set_runtime}

-- EPOLLIN | EPOLLOUT | EPOLLPRI | EPOLLET | EPOLLRDHUP, and EPOLLIN | EPOLLRDHUP
abbrev pub socket_events : ℕ
socket_events = 0x80002007

abbrev pub acceptor_events : ℕ
acceptor_events = 0x2001

abbrev pub events_of : Bool → ℕ
events_of true = socket_events
events_of false = acceptor_events

-- What becomes of a handle when the runtime drops its last pointer to it: others hold it still, or its
-- destructor runs, in which the exchange of `close` may fail for no reason.
pub data Fate : Type 0 where
  held : Fate
  dropped : (spurious : Bool) → Fate

pub occurs : ℕ → List ℕ → Bool
occurs p [] = false
occurs p (q ∷ ps) = (q == p) || occurs p ps

-- The handles of a list of pointers to which no other pointer is left when their last one in the list is
-- destroyed, in that order. `owned` tells to which the runtime has a pointer elsewhere.
pub orphans : (owned : ℕ → Bool) → List ℕ → List ℕ
unfolding occurs
orphans owned [] = []
orphans owned (p ∷ ps) = if owned p || occurs p ps then orphans owned ps else p ∷ orphans owned ps

module _ (c : Containers) where
  open c use {
    Map, Set, find, insert, assign, erase, size, entries, set_insert, set_erase, map_empty,
    set_empty,
  }

  -- `self` is what a weak pointer to the runtime names. `locked` is the state of `handles_mtx_`, and
  -- `stuck` tells that a method has waited for it while its own caller held it. `effects` is
  -- everything done outside so far, oldest first.
  pub record Runtime : Type 0 where
    pub self : ℕ
    pub removable_handles : List ℕ
    pub all_sockets : Set
    pub all_handles : Map
    pub locked : Bool
    pub stuck : Bool
    pub objects : Objects
    pub memory : Memory
    pub effects : List Effect

  pub current_load : Runtime → ℕ
  current_load rt = size rt.all_handles

  -- The end of `deregister_handle`, for the handle that is registered under its descriptor.
  remove_handle : ℕ → Runtime → Runtime
  remove_handle p rt = record rt {
    removable_handles = rt.removable_handles ++ p ∷ [];
    all_sockets = if socket_at rt.objects p then set_erase rt.all_sockets p else rt.all_sockets;
    all_handles = erase rt.all_handles fd;
    objects = set_runtime p none rt.objects;
    effects = rt.effects ++ watch remove fd p (events_of (socket_at rt.objects p)) ∷ [];
  }
    where
      fd : ℕ
      fd = fd_of rt.objects p

  drop_handle : ℕ → Option ℕ → Runtime → Runtime
  unfolding remove_handle
  drop_handle p none rt = rt
  drop_handle p (some q) rt = if q == p then remove_handle p rt else rt

  pub deregister_handle : ℕ → Runtime → Runtime
  unfolding drop_handle
  deregister_handle p rt =
      if rt.locked
      then record rt { stuck = true }
      else drop_handle p (find rt.all_handles (fd_of rt.objects p)) rt

  -- What a method of the handle `p` does outside, done in turn. The runtime that it names is this one.
  pub perform : ℕ → List Effect → Runtime → Runtime
  unfolding deregister_handle
  perform p [] rt = rt
  perform p (deregister r ∷ es) rt = perform p es (deregister_handle p rt)
  perform p (close_fd fd ∷ es) rt =
      perform p es (record rt { effects = rt.effects ++ close_fd fd ∷ [] })
  perform p (watch ctl fd q events ∷ es) rt =
      perform p es (record rt { effects = rt.effects ++ watch ctl fd q events ∷ [] })
  perform p (notify callback result n ∷ es) rt =
      perform p es (record rt { effects = rt.effects ++ notify callback result n ∷ [] })

  pub close_as : (spurious : Bool) → ℕ → Object → Runtime → Runtime
  unfolding perform
  close_as spurious p (acceptor h) rt = perform p (Handle.close h) rt
  close_as spurious p (socket s wire) rt =
      perform p w.effects
        (record rt { objects = put rt.objects p (socket w.socket w.wire); memory = w.memory })
    where
      w : World
      w =
          Socket.close spurious
            (record { socket = s; memory = rt.memory; wire = wire; effects = [] })

  -- The virtual method `close` of the handle at an address.
  pub close_handle : (spurious : Bool) → ℕ → Runtime → Runtime
  unfolding close_as
  close_handle spurious p rt = close_as spurious p (rt.objects p) rt

  -- The first case of `register_handle`.
  pub insert_handle : ℕ → Runtime → Runtime
  insert_handle p rt = record rt {
    all_sockets = if socket_at rt.objects p then set_insert rt.all_sockets p else rt.all_sockets;
    all_handles = insert rt.all_handles fd p;
    effects = rt.effects ++ watch add fd p (events_of (socket_at rt.objects p)) ∷ [];
  }
    where
      fd : ℕ
      fd = fd_of rt.objects p

  -- The second case: the handle that is registered under the same descriptor is closed first.
  pub retire_handle : (spurious : Bool) → ℕ → Runtime → Runtime
  unfolding close_handle
  retire_handle spurious prev rt =
      let unlinked : Runtime = record rt {
        removable_handles = rt.removable_handles ++ prev ∷ [];
        objects = set_runtime prev none rt.objects;
      } in
      let closed = close_handle spurious prev unlinked in
      record closed {
        all_sockets =
            if socket_at closed.objects prev
            then set_erase closed.all_sockets prev
            else closed.all_sockets;
      }

  pub replace_handle : ℕ → Runtime → Runtime
  replace_handle p rt = record rt {
    all_sockets = if socket_at rt.objects p then set_insert rt.all_sockets p else rt.all_sockets;
    all_handles = assign rt.all_handles fd p;
    effects = rt.effects ++ watch modify fd p (events_of (socket_at rt.objects p)) ∷ [];
  }
    where
      fd : ℕ
      fd = fd_of rt.objects p

  enter_handle : (spurious : Bool) → ℕ → Option ℕ → Runtime → Runtime
  unfolding insert_handle retire_handle replace_handle
  enter_handle spurious p none rt = insert_handle p rt
  enter_handle spurious p (some prev) rt = replace_handle p (retire_handle spurious prev rt)

  -- The lock is taken behind the assignment to `runtime_`, and given back at the end.
  pub register_handle : (spurious : Bool) → ℕ → Runtime → Runtime
  unfolding enter_handle
  register_handle spurious p rt =
      let linked : Runtime = record rt { objects = set_runtime p (some rt.self) rt.objects } in
      let done =
        enter_handle spurious p (find linked.all_handles (fd_of linked.objects p))
          (record linked { locked = true }) in
      if rt.locked then record linked { stuck = true } else record done { locked = false }

  -- The loop of `release_all_handles`.
  pub release_each : List (ℕ × ℕ) → Runtime → Runtime
  release_each [] rt = rt
  release_each ((fd, p) ∷ rest) rt = release_each rest (record rt {
    objects = set_runtime p none rt.objects;
    effects = rt.effects ++ watch remove fd p (events_of (socket_at rt.objects p)) ∷ [];
  })

  -- What the destructor of the handle at an address does, which is a socket or not: `~TcpSocket` calls
  -- `close`, and `~TcpAcceptor` does nothing.
  destroy : Fate → (is_socket : Bool) → ℕ → Runtime → Runtime
  unfolding close_handle
  destroy (dropped spurious) true p rt = close_handle spurious p rt
  destroy _ _ p rt = rt

  pub destroy_each : (fates : ℕ → Fate) → List ℕ → Runtime → Runtime
  unfolding destroy
  destroy_each fates [] rt = rt
  destroy_each fates (p ∷ ps) rt =
      destroy_each fates ps (destroy (fates p) (socket_at rt.objects p) p rt)

  -- The tables are swapped with empty ones, which are destroyed with what they held, the removed handles
  -- last, while the lock is held.
  pub release_all_handles : (fates : ℕ → Fate) → Runtime → Runtime
  unfolding release_each destroy_each orphans
  release_all_handles fates rt =
      let unlinked = release_each (entries rt.all_handles) (record rt { locked = true }) in
      let swapped =
        destroy_each fates
          (orphans (λ p. occurs p rt.removable_handles)
            (map (λ (e : ℕ × ℕ). e.1) (entries rt.all_handles)))
          (record unlinked { all_handles = map_empty }) in
      let freed =
        destroy_each fates (orphans (λ p. false) rt.removable_handles)
          (record swapped { all_sockets = set_empty; removable_handles = [] }) in
      record freed { locked = false }

  registered : Runtime → ℕ → Bool
  registered rt p = named (find rt.all_handles (fd_of rt.objects p))
    where
      named : Option ℕ → Bool
      named none = false
      named (some q) = q == p

  -- `removable_handles_.clear()` at the end of a turn of `exec`.
  pub clear_removable : (fates : ℕ → Fate) → Runtime → Runtime
  unfolding destroy_each orphans registered
  clear_removable fates rt =
      let freed =
        destroy_each fates (orphans (registered rt) rt.removable_handles)
          (record rt { removable_handles = []; locked = true }) in
      record freed { locked = false }

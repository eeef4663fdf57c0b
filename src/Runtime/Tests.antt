-- ===== src/Runtime/Tests.antt =====
-- `Runtime` (src/core/runtime.cpp) over tables that are lists: an acceptor on descriptor 3 and a socket
-- on descriptor 5.
use spinet.Common.{
  ℕ, ◌≡◌, refl, subst, false, none, some, inl, inr, [], ◌∷◌, ◌==◌, if◌then◌else◌, arith,
}
use spinet.Handle.{close_fd, watch, notify, modify}
use spinet.Result.{system_error}
use spinet.Runtime.Tables.{tables}
use spinet.Runtime.Store.{runtime_of}
use spinet.Runtime.{
  Runtime, Fate, held, dropped, register_handle, close_handle, release_all_handles, socket_events,
}
use spinet.Runtime.Consistency.{IsConsistent}
use spinet.Runtime.Closing.{close_handle-IsConsistent}
use spinet.Runtime.Registration.{Replaced, register_handle-IsConsistent}
use spinet.Runtime.Releasing.{IsRetired, Released, release_all_handles-Released}
use spinet.Runtime.Replacement.{register_handle-closes_descriptor}
use spinet.Runtime.Small.{connection, serving, serving-IsConsistent}

-- The socket at 30 has the descriptor of the one at 20.
register_handle-IsConsistent_example :
    IsConsistent tables (register_handle tables false 30 serving)
    × (tables.find (register_handle tables false 30 serving).all_handles 5 ≡ some 30)
    × Replaced tables false serving (some 20) (register_handle tables false 30 serving)
register_handle-IsConsistent_example =
    register_handle-IsConsistent tables false 30 serving serving-IsConsistent (λ e. ground arith)

register_handle-closes_descriptor_example :
    (register_handle tables false 30 serving).effects
    ≡ close_fd 5 ∷ notify 1 (system_error 9) 0 ∷ watch modify 5 30 socket_events ∷ []
register_handle-closes_descriptor_example =
    register_handle-closes_descriptor tables 30 20 (connection 7) [] serving serving-IsConsistent
      (λ e. ground arith) refl refl refl

close_handle-IsConsistent_example : IsConsistent tables (close_handle tables false 20 serving)
close_handle-IsConsistent_example =
    close_handle-IsConsistent tables false 20 serving serving-IsConsistent

-- The socket at 30 waits among the removed handles.
abbrev replaced : Runtime tables
replaced = record serving { removable_handles = 30 ∷ [] }

replaced-IsRetired : IsRetired tables replaced
replaced-IsRetired q (inl e) = inl (subst (λ x. runtime_of replaced.objects x ≡ none) e refl)
replaced-IsRetired q (inr i) = absurd i

-- Nobody else holds a handle but the one at 20.
abbrev fates : ℕ → Fate
fates p = if p == 20 then held else dropped false

release_all_handles-Released_example :
    Released tables fates replaced (release_all_handles tables fates replaced)
release_all_handles-Released_example =
    release_all_handles-Released tables fates replaced replaced-IsRetired

-- ===== src/Echo/Windows.antt =====
-- How much of its buffer an echoing connection (example/echo/async/server.cpp, client.cpp) hands to the kernel.
use spinet.Common.{◌∙◌, ℕ, ◌≤◌, ◌<◌, ◌≡◌, refl, sym, subst, List, [], ◌∷◌, length, arith}
use spinet.Echo.{
  Request, async_read_some, async_write_some, close, Outcome, fails, reads, writes, Connection,
  overwrite, read_callback, write_callback, resume, resume_all,
}

-- The kernel transfers at least one byte, and no more than it was asked for; on a read of none, the
-- library reports the end of the file as an error.
abbrev pub Allowed : Request → Outcome → Type 0
Allowed (async_read_some len) (reads bytes) = (0 < length bytes) × (length bytes ≤ len)
Allowed (async_read_some len) (writes size) = Unit
Allowed (async_write_some len) (writes size) = (0 < size) × (size ≤ len)
Allowed (async_write_some len) (reads bytes) = Unit
Allowed close o = Unit
Allowed request fails = Unit

unfoldable pub AllAllowed : List Outcome → Connection → Type 0
AllAllowed [] c = Unit
AllAllowed (o ∷ outcomes) c = Allowed c.request o × AllAllowed outcomes (resume o c c.request)

-- A request for between one byte and `n`.
abbrev pub Within : ℕ → Request → Type 0
Within n (async_read_some len) = (0 < len) × (len ≤ n)
Within n (async_write_some len) = (0 < len) × (len ≤ n)
Within n close = Unit

length-overwrite :
    (bytes buffer : List ℕ)
    → length bytes ≤ length buffer
    → length (overwrite bytes buffer) ≡ length buffer
unfolding overwrite
length-overwrite [] buffer h = refl
length-overwrite (x ∷ bytes) [] h = absurd (omega arith)
length-overwrite (x ∷ bytes) (y ∷ buffer) h =
    omega (arith, length-overwrite bytes buffer (omega arith))

pub size : Request → ℕ
size (async_read_some len) = len
size (async_write_some len) = len
size close = 0

Within-size : (n : ℕ) (r : Request) → Within n r → Within (size r) r
unfolding size
Within-size n (async_read_some len) h = (h.0, omega arith)
Within-size n (async_write_some len) h = (h.0, omega arith)
Within-size n close h = tt

Within-size-le : (n : ℕ) (r : Request) → Within n r → size r ≤ n
unfolding size
Within-size-le n (async_read_some len) h = h.1
Within-size-le n (async_write_some len) h = h.1
Within-size-le n close h = omega arith

-- A connection whose buffer has `n` bytes, with a request for at most `m`.
abbrev Windowed : (n m : ℕ) → Connection → Type 0
Windowed n m c = (length c.buffer ≡ n) × Within m c.request

resume-Windowed :
    (n m : ℕ) (o : Outcome) (c : Connection) (r : Request)
    → length c.buffer ≡ n
    → m ≤ n
    → Within m r
    → c.request ≡ r
    → Allowed r o
    → Windowed n m (resume o c r)
unfolding resume read_callback write_callback
resume-Windowed n m fails c r buffer le h e ok = (buffer, tt)
resume-Windowed n m (reads bytes) c (async_read_some len) buffer le h e ok =
    (length-overwrite bytes c.buffer (omega arith) ∙ buffer, (ok.0, omega (arith, ok.1, h.1)))
resume-Windowed n m (reads bytes) c (async_write_some len) buffer le h e ok =
    (buffer, subst (Within m) (sym e) h)
resume-Windowed n m (reads bytes) c close buffer le h e ok = (buffer, subst (Within m) (sym e) h)
resume-Windowed n m (writes size) c (async_read_some len) buffer le h e ok =
    (buffer, subst (Within m) (sym e) h)
resume-Windowed n m (writes size) c (async_write_some len) buffer le h e ok =
    (buffer, (ok.0, omega (arith, ok.1, h.1)))
resume-Windowed n m (writes size) c close buffer le h e ok = (buffer, subst (Within m) (sym e) h)

resume_all-Windowed :
    (n m : ℕ) (outcomes : List Outcome) (c : Connection)
    → m ≤ n
    → Windowed n m c
    → AllAllowed outcomes c
    → Windowed n m (resume_all outcomes c)
unfolding resume_all AllAllowed
resume_all-Windowed n m [] c le h ok = h
resume_all-Windowed n m (o ∷ outcomes) c le h ok =
    resume_all-Windowed n m outcomes (resume o c c.request) le
      (resume-Windowed n m o c c.request h.0 le h.1 refl ok.0) ok.1

-- From a connection that asks for no more bytes than its buffer has, whatever the kernel transfers: the buffer
-- keeps its length, and each request is for at least one byte and for no more than the request at the
-- outset: nothing is read or written behind the end of the buffer, and the window never grows.
pub resume_all-Within :
    (n : ℕ) (outcomes : List Outcome) (c : Connection)
    → length c.buffer ≡ n
    → Within n c.request
    → AllAllowed outcomes c
    → (length (resume_all outcomes c).buffer ≡ n)
      × Within (size c.request) (resume_all outcomes c).request
resume_all-Within n outcomes c buffer h ok =
    resume_all-Windowed n (size c.request) outcomes c (Within-size-le n c.request h)
      (buffer, Within-size n c.request h) ok

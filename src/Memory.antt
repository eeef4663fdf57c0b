-- ===== src/Memory.antt =====
-- The bytes of the process, which the buffers of `TcpReadTask` and `TcpWriteTask`
-- (src/core/tcp_socket.cpp) point into.
use spinet.Common.{
  ℕ, zero, suc, ◌+◌, ◌<◌, ◌≡◌, ◌≤◌, take, ap, refl, ap₂, List, [], ◌∷◌, length, ◌==◌, if◌then◌else◌,
  arith,
}

-- The byte at each address.
abbrev pub Memory : Type 0
Memory = ℕ → ℕ

abbrev pub update : Memory → ℕ → ℕ → Memory
update m a b x = if a == x then b else m x

-- Writes bytes from an address on.
unfoldable pub store : Memory → ℕ → List ℕ → Memory
store m a [] = m
store m a (b ∷ bs) = store (update m a b) (a + 1) bs

-- Reads as many bytes from an address on.
unfoldable pub load : Memory → ℕ → ℕ → List ℕ
load m a zero = []
load m a (suc n) = m a ∷ load m (a + 1) n

store_below : (m : Memory) (a : ℕ) (bs : List ℕ) (x : ℕ) → x < a → store m a bs x ≡ m x
unfolding store
store_below m a [] x h = refl
store_below m a (b ∷ bs) x h = ground (arith, store_below (update m a b) (a + 1) bs x (omega arith))

-- What was stored is loaded again.
pub load-store : (m : Memory) (a : ℕ) (bs : List ℕ) → load (store m a bs) a (length bs) ≡ bs
unfolding store load
load-store m a [] = refl
load-store m a (b ∷ bs) =
    ap₂ ◌∷◌ (ground (arith, store_below (update m a b) (a + 1) bs a (omega arith)))
      (load-store (update m a b) (a + 1) bs)

-- A prefix of what is loaded.
pub take-load : (m : Memory) (a n len : ℕ) → n ≤ len → load m a n ≡ take n (load m a len)
unfolding load
take-load m a zero len h = refl
take-load m a (suc n) zero h = absurd (omega arith)
take-load m a (suc n) (suc len) h = ap (λ l. m a ∷ l) (take-load m (a + 1) n len (omega arith))

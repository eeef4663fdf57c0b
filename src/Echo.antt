-- ===== src/Echo.antt =====
-- The echoing connections of example/echo/async: the callbacks of server.cpp and client.cpp, which pass one
-- buffer back and forth, and those of client2.cpp, which write once, read once and close.
pub mod Windows
pub mod Fidelity
pub mod Once
pub mod Wire
mod Tests
use spinet.Common.{ℕ, zero, suc, ◌+◌, ◌-◌, List, [], ◌∷◌, ◌++◌, length, take}
use spinet.Workers.{replicate}

-- The operation that a callback submits last, or the call of `close`. Each works on the front of the buffer.
pub data Request : Type 0 where
  async_read_some async_write_some : (len : ℕ) → Request
  close : Request

-- What the kernel does in the operation under way: it fails, it reads these bytes, or it writes that many.
pub data Outcome : Type 0 where
  fails : Outcome
  reads : (bytes : List ℕ) → Outcome
  writes : (size : ℕ) → Outcome

-- `received` and `sent` are the bytes that have been read and written so far.
pub record Connection : Type 0 where
  pub buffer : List ℕ
  pub received : List ℕ
  pub sent : List ℕ
  pub request : Request

-- The bytes over the front of the buffer. What lies behind its end is not the buffer's.
pub overwrite : (bytes buffer : List ℕ) → List ℕ
overwrite [] buffer = buffer
overwrite (x ∷ bytes) [] = x ∷ bytes
overwrite (x ∷ bytes) (y ∷ buffer) = x ∷ overwrite bytes buffer

-- The callback that server.cpp gives to `listen_tcp_endpoint`, where `buffer` has `payload_size` bytes.
pub accepted : (buffer : List ℕ) → Connection
accepted buffer = record {
  buffer = buffer;
  received = [];
  sent = [];
  request = async_read_some (length buffer);
}

-- What client.cpp and client2.cpp write first: 'a's, with a zero behind them.
pub payload : (payload_size : ℕ) → List ℕ
payload payload_size = replicate (payload_size - 1) 97 ++ 0 ∷ []

-- What client.cpp and client2.cpp do with a connected socket.
pub connected : (payload_size : ℕ) → Connection
unfolding payload
connected payload_size = record {
  buffer = payload payload_size;
  received = [];
  sent = [];
  request = async_write_some payload_size;
}

-- `read_callback` and `write_callback`, each with the operation before it; the bytes of an operation are
-- there before its callback is called.
read_callback : (size : ℕ) → Connection → Connection
read_callback size c = record c { request = async_write_some size }

write_callback : (size : ℕ) → Connection → Connection
write_callback size c = record c { request = async_read_some size }

unfoldable pub resume : Outcome → Connection → (request : Request) → Connection
unfolding read_callback write_callback overwrite
resume fails c request = record c { request = close }
resume (reads bytes) c (async_read_some len) =
    read_callback (length bytes)
      (record c { buffer = overwrite bytes c.buffer; received = c.received ++ bytes })
resume (writes size) c (async_write_some len) =
    write_callback size (record c { sent = c.sent ++ take size c.buffer })
resume outcome c request = c

pub resume_all : List Outcome → Connection → Connection
unfolding resume
resume_all [] c = c
resume_all (o ∷ outcomes) c = resume_all outcomes (resume o c c.request)

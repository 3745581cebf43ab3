-- ===== src/Shard/Buffered.antt =====
-- `BufferedReceiver` (alvr_stream_socket.rs): a channel's receiving end with one message of
-- look-ahead. The channel itself is crossbeam's unbounded one: a first-in first-out queue.
use si_est_a_vr.Common.{
  ℕ, ◌≤◌, ◌<◌, min, ◌≡◌, List, [], ◌∷◌, Option, none, some, arith, leb, ltb, if◌then◌else◌, length,
  take, Bytes, Outcome, ok, err,
}
use si_est_a_vr.Shard.Sender.{Channel}

pub data ConnectionError : Type 0 where
  try_again other : ConnectionError

pub data TryRecv : Type 0 where
  got : Bytes → Channel → TryRecv
  empty disconnected : TryRecv

-- A disconnected channel still gives the messages that it holds.
try_recv_from : List Bytes → Channel → TryRecv
try_recv_from [] c = if c.connected then empty else disconnected
try_recv_from (m ∷ ms) c = got m (record c { pending = ms })

unfoldable pub try_recv : Channel → TryRecv
unfolding try_recv_from
try_recv c = try_recv_from c.pending c

pub record BufferedReceiver : Type 0 where
  pub receiver : Channel
  pub buffer : Option Bytes

abbrev pub new : Channel → BufferedReceiver
new c = record { receiver = c; buffer = none }

recv_buffered :
    Option Bytes → BufferedReceiver → ℕ → BufferedReceiver × Outcome ConnectionError Bytes
recv_buffered (some m) r room =
    if leb (length m) room
    then (record r { buffer = none }, ok m)
    else (record r { buffer = some m }, err other)
recv_buffered none r room = elim (try_recv r.receiver) [
  | got m c ↦
      (record { receiver = c; buffer = none }, (if leb (length m) room then ok m else err other))
  | empty ↦ (r, ok [])
  | disconnected ↦ (r, err other)
]

-- `recv` into a buffer of `room` bytes. What is copied is returned; none is a count of 0.
unfoldable pub recv : BufferedReceiver → ℕ → BufferedReceiver × Outcome ConnectionError Bytes
unfolding recv_buffered
recv r room = recv_buffered r.buffer r room

-- `buffer_guard` after the attempt to fill it, or the early return.
pub data Filled : Type 0 where
  filled : BufferedReceiver → Bytes → Filled
  nothing broken : Filled

fill : Option Bytes → BufferedReceiver → Filled
fill (some m) r = filled r m
fill none r = elim (try_recv r.receiver) [
  | got m c ↦ filled (record { receiver = c; buffer = some m }) m
  | empty ↦ nothing
  | disconnected ↦ broken
]

unfoldable pub peek : BufferedReceiver → ℕ → BufferedReceiver × Outcome ConnectionError Bytes
unfolding fill
peek r room = elim (fill r.buffer r) [
  | filled r' m ↦ (r', (if leb (length m) room then ok m else err other))
  | nothing ↦ (r, ok [])
  | broken ↦ (r, err other)
]

-- `peek_prefix` gives the first `prefix_room` bytes and the whole message's length.
unfoldable pub peek_prefix :
    BufferedReceiver → ℕ → ℕ → BufferedReceiver × Outcome ConnectionError (Bytes × ℕ)
unfolding fill
peek_prefix r prefix_room max_len = elim (fill r.buffer r) [
  | filled r' m ↦ (
    r',
    (if ltb max_len (length m)
        then err other
        else ok (take (min (length m) prefix_room) m, length m)),
  )
  | nothing ↦ (r, ok ([], 0))
  | broken ↦ (r, err other)
]

unfoldable pub recv_shared :
    BufferedReceiver → BufferedReceiver × Outcome ConnectionError (Option Bytes)
unfolding fill
recv_shared r = elim (fill r.buffer r) [
  | filled r' m ↦ (record r' { buffer = none }, ok (some m))
  | nothing ↦ (r, ok none)
  | broken ↦ (r, err other)
]

-- The abstract view: the messages that are still to come, in order.
unfoldable pub queue : BufferedReceiver → List Bytes
queue r = elim r.buffer [ some m ↦ m ∷ r.receiver.pending | none ↦ r.receiver.pending ]

-- `recv` into a buffer that is large enough gives the next message and takes it alone.
pub recv_next :
    (r : BufferedReceiver) (room : ℕ) (m : Bytes) (rest : List Bytes)
    → queue r ≡ m ∷ rest
    → length m ≤ room
    → ((recv r room).1 ≡ ok m) × (queue (recv r room).0 ≡ rest)
unfolding recv queue try_recv
recv_next r room m rest h fits = ground arith

-- Looking ahead gives the next message, if it fits, and takes none.
pub peek_next :
    (r : BufferedReceiver) (room : ℕ) (m : Bytes) (rest : List Bytes)
    → queue r ≡ m ∷ rest
    → ((peek r room).1 ≡ (if leb (length m) room then ok m else err other))
      × (queue (peek r room).0 ≡ m ∷ rest)
unfolding peek queue try_recv
peek_next r room m rest h = ground arith

-- A message that is too long for `recv`'s buffer is kept if it was looked at before, and is lost
-- if it was not; either way the call fails.
pub recv_too_long :
    (r : BufferedReceiver) (room : ℕ) (m : Bytes) (rest : List Bytes)
    → queue r ≡ m ∷ rest
    → room < length m
    → ((recv r room).1 ≡ err other)
      × (queue (recv r room).0 ≡ elim r.buffer [ some _ ↦ m ∷ rest | none ↦ rest ])
unfolding recv queue try_recv
recv_too_long r room m rest h long = ground arith

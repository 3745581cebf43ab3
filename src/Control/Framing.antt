-- ===== src/Control/Framing.antt =====
-- The control socket (alvr_control_socket.rs): a packet is serialized behind its length. bincode is a
-- parameter. The sender's buffer is kept between calls, and never shrinks.
use si_est_a_vr.Common.{
  ℕ, zero, suc, ◌+◌, ◌≡◌, Option, none, some, List, [], ◌∷◌, ◌++◌, leb, ltb, if◌then◌else◌, length,
  take, drop, Bytes, byte, resize, write_at, be32, from_be32, u32, Outcome, ok, err, panic, hang,
  ◌>>=◌,
}
use si_est_a_vr.Shard.Sender.{Channel}
use si_est_a_vr.Shard.Buffered.{BufferedReceiver, ConnectionError, try_again, other, recv}

-- `serialized_size` and `serialize_into` fail together; `serialized` is what the latter writes.
pub record Bincode (Packet : Type 0) : Type 0 where
  pub serialized : Packet → Option Bytes
  pub deserialize : Bytes → Option Packet
  pub deserialize-serialized :
      (p : Packet) (bs : Bytes) → serialized p ≡ some bs → deserialize bs ≡ some p

pub data FramingError : Type 0 where
  bincode_error size_limit send_error : FramingError

abbrev pub framed_prefix_length : ℕ
framed_prefix_length = 4

-- `if buffer.len() < packet_size { buffer.resize(packet_size, 0) }`.
abbrev pub grow : ℕ → Bytes → Bytes
grow n b = if ltb (length b) n then resize n b else b

abbrev pub prefix_length : Bytes → ℕ
prefix_length b = from_be32 (byte b 0) (byte b 1) (byte b 2) (byte b 3)

abbrev pub lift_option {ℓ} : {E : Type 0} {A : Type ℓ} → E → Option A → Outcome E A
lift_option e none = err e
lift_option e (some a) = ok a

module _ {Packet : Type 0} (bincode : Bincode Packet) where
  abbrev pub frame_into : Bytes → Bytes → Bytes
  frame_into bs buffer =
      write_at (write_at (grow (length bs + 4) buffer) 0 (be32 (u32 (length bs)))) 4 bs

  -- The channel and the buffer after the call. The whole buffer is sent.
  unfoldable pub framed_send : Channel → Bytes → Packet → Outcome FramingError (Channel × Bytes)
  framed_send sender buffer packet = do
    bs ← lift_option bincode_error (bincode.serialized packet)
    let framed = frame_into bs buffer
    if sender.connected
        then ok (record sender { pending = sender.pending ++ framed ∷ [] }, framed)
        else err send_error

  unfoldable pub framed_recv_vec : Bytes → Outcome FramingError Packet
  framed_recv_vec buffer =
      if ltb (length buffer) framed_prefix_length
      then err size_limit
      else (let packet_length = framed_prefix_length + prefix_length buffer in
          if ltb (length buffer) packet_length
          then err size_limit
          else lift_option bincode_error (
              bincode.deserialize (take (prefix_length buffer) (drop framed_prefix_length buffer))))

  abbrev pub Received : Type 0
  Received = Outcome ConnectionError Packet × Bytes × BufferedReceiver

  -- One round of the loop, after `recv` into the buffer. `again` goes on, with the number of readings
  -- of the clock so far. Where the bytes are fewer than the prefix says, the time is not looked at.
  abbrev pub recv_round :
      (ℕ → Bytes → BufferedReceiver → Received)
      → (ℕ → ℕ)
      → ℕ
      → ℕ
      → Bytes
      → BufferedReceiver × Outcome ConnectionError Bytes
      → Received
  recv_round again clock deadline n buffer (r, ok m) =
      let filled = write_at buffer 0 m in
      let packet_length = framed_prefix_length + prefix_length filled in
      if leb framed_prefix_length (length m)
      then (if leb packet_length (length m)
          then (
            lift_option other (
                bincode.deserialize
                  (take (prefix_length filled) (drop framed_prefix_length filled))),
            filled,
            r,
          )
          else again n filled r)
      else (if ltb deadline (clock n) then (err try_again, filled, r) else again (suc n) filled r)
  recv_round again clock deadline n buffer (r, err e) = (panic, buffer, r)
  recv_round again clock deadline n buffer (r, panic) = (panic, buffer, r)
  recv_round again clock deadline n buffer (r, hang) = (hang, buffer, r)

  -- The loop of `framed_recv`, on fuel; `clock n` is the n-th reading of the clock in it.
  unfoldable pub recv_until : (ℕ → ℕ) → ℕ → ℕ → ℕ → Bytes → BufferedReceiver → Received
  recv_until clock deadline zero n buffer r = (hang, buffer, r)
  recv_until clock deadline (suc fuel) n buffer r =
      recv_round (recv_until clock deadline fuel) clock deadline n buffer (recv r (length buffer))

  unfoldable pub framed_recv : (ℕ → ℕ) → ℕ → ℕ → Bytes → BufferedReceiver → Received
  framed_recv clock timeout fuel buffer r = recv_until clock (clock 0 + timeout) fuel 1 buffer r

  -- `ControlSocketSender::send`, for several packets.
  unfoldable pub send_all : List Packet → Channel → Bytes → Outcome FramingError (Channel × Bytes)
  send_all [] sender buffer = ok (sender, buffer)
  send_all (p ∷ ps) sender buffer =
      framed_send sender buffer p >>= (λ (sender', buffer'). send_all ps sender' buffer')

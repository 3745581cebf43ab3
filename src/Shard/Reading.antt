-- ===== src/Shard/Reading.antt =====
-- One whole shard in the channel: what the look-ahead and the read loop make of it
-- (alvr_stream_socket.rs, `BufferedReceiver::peek`, the read loop of `StreamSocket::recv`).
use si_est_a_vr.Common.{
  ℕ, suc, ◌+◌, ◌-◌, ◌≤◌, ◌<◌, ◌≡◌, refl, ap, ◌∙◌, Option, none, some, List, [], ◌∷◌, arith, length,
  take, min, Bytes, ok, get_or-take,
}
use si_est_a_vr.Shard.Prefix.{word16, word32}
use si_est_a_vr.Shard.Buffered.{
  BufferedReceiver, peek_prefix, queue, try_recv, recv_next, recv as read,
}
use si_est_a_vr.Shard.Receiver.{
  max_packet_size_recv, Deadlines, stamped_state, with_stamp, recv_state,
}
use si_est_a_vr.Shard.Reception.{read_shard}

-- A message that is one whole shard.
pub record IsMessage (m : Bytes) : Type 0 where
  pub has_prefix : 22 ≤ length m
  pub fits : length m ≤ max_packet_size_recv
  pub length_field : 4 + word32 m 0 ≡ length m

-- The look-ahead reads the prefix and takes nothing.
pub peek_prefix-next :
    (r : BufferedReceiver) (m : Bytes) (rest : List Bytes)
    → queue r ≡ m ∷ rest
    → IsMessage m
    → ((peek_prefix r 22 16000).1 ≡ ok (take 22 m, length m))
      × (queue (peek_prefix r 22 16000).0 ≡ m ∷ rest)
unfolding peek_prefix queue try_recv
peek_prefix-next r m rest h w =
    let min_prefix : min (length m) 22 ≡ 22 = omega (arith, w.has_prefix) in
    let whole : take (min (length m) 22) m ≡ take 22 m = rw min_prefix in
    ground (arith, whole, w.fits)

read_whole :
    (r : BufferedReceiver) (m : Bytes) (rest : List Bytes) (k : ℕ)
    → queue r ≡ m ∷ rest
    → length m ≡ suc k
    → read_shard (m ∷ rest) r (suc k) [] ≡ ok ((read r (suc k)).0, m)
unfolding read_shard
read_whole r m rest k h e =
    let none_left : suc k - length m ≡ 0 = omega arith in
    ground (arith, (recv_next r (suc k) m rest h (omega arith)).0, none_left)

pub read_shard-next :
    (r : BufferedReceiver) (m : Bytes) (rest : List Bytes) (k : ℕ)
    → queue r ≡ m ∷ rest
    → length m ≡ suc k
    → (r' : BufferedReceiver) × (read_shard (queue r) r (length m) [] ≡ ok (r', m))
      × (queue r' ≡ rest)
read_shard-next r m rest k h e = (
  (read r (suc k)).0,
  rw (h, e) (read_whole r m rest k h e),
  (recv_next r (suc k) m rest h (omega arith)).1,
)

-- The words of the prefix are the message's.
word16-take : (m : Bytes) (i : ℕ) → i + 1 < 22 → word16 (take 22 m) i ≡ word16 m i
word16-take m i h =
    rw (get_or-take m 22 i 0 (omega arith), get_or-take m 22 (i + 1) 0 (omega arith))

word32-take : (m : Bytes) (i : ℕ) → i + 3 < 22 → word32 (take 22 m) i ≡ word32 m i
word32-take m i h = rw (
  get_or-take m 22 i 0 (omega arith),
  get_or-take m 22 (i + 1) 0 (omega arith),
  get_or-take m 22 (i + 2) 0 (omega arith),
  get_or-take m 22 (i + 3) 0 (omega arith),
)

stamped_state-take :
    (d : Deadlines) (t : ℕ) (m : Bytes) → stamped_state d t (take 22 m) ≡ stamped_state d t m
unfolding stamped_state
stamped_state-take d t m = rw (
  word32-take m 0 (omega arith),
  word16-take m 4 (omega arith),
  word32-take m 6 (omega arith),
  word32-take m 10 (omega arith),
  word32-take m 14 (omega arith),
)

with_stamp-take :
    (d : Deadlines) (o : Option ℕ) (m : Bytes) → with_stamp o d (take 22 m) ≡ with_stamp o d m
with_stamp-take d none m = refl
with_stamp-take d (some t) m = ap ok (stamped_state-take d t m)

pub recv_state-take : (d : Deadlines) (m : Bytes) → recv_state d (take 22 m) ≡ recv_state d m
unfolding recv_state
recv_state-take d m =
    ap (λ n. with_stamp (d.from_secs_f32 n) d (take 22 m)) (word32-take m 18 (omega arith))
    ∙ with_stamp-take d (d.from_secs_f32 (word32 m 18)) m

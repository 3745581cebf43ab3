-- ===== src/Shard/Order.antt =====
-- `wrapping_cmp` and `StreamReceiver::recv` (alvr_stream_socket.rs): packets are handed over in the
-- order of their 32-bit wrapping index, older ones are dropped and gaps counted.
use Prim.Native.Nat.{Ordering}
use si_est_a_vr.Common.{
  ℕ, ◌+◌, ◌-◌, ◌%◌, ◌<◌, ◌≡◌, ◌⊎◌, Bool, true, false, List, [], ◌∷◌, ◌++◌, Option, none, some,
  arith, ltb, ◌==◌, if◌then◌else◌, Bytes, u32, u32_mod,
}

-- `lhs.wrapping_sub(rhs)` on `u32`.
abbrev pub wrapping_sub : ℕ → ℕ → ℕ
wrapping_sub a b = (a + 4294967296 - b) % 4294967296

abbrev pub wrapping_add : ℕ → ℕ → ℕ
wrapping_add a b = (a + b) % 4294967296

-- `u32::MAX / 2` is 2147483647.
unfoldable pub wrapping_cmp : ℕ → ℕ → Ordering
wrapping_cmp lhs rhs =
    let diff = wrapping_sub lhs rhs in
    if diff == 0 then Ordering.eq else if ltb diff 2147483647 then Ordering.gt else Ordering.lt

unfoldable pub is_less : Ordering → Bool
is_less Ordering.lt = true
is_less _ = false

-- A packet put together from its shards. The statistics that ride along are left out.
pub record Reconstructed : Type 0 where
  pub index : ℕ
  pub buffer : Bytes
  pub size : ℕ
  pub rx_bytes : ℕ
  pub rx_shard_counter : ℕ
  pub duplicated_shard_counter : ℕ
  pub shards_in_frame : ℕ

pub record StreamReceiver : Type 0 where
  pub packet_queue : List Reconstructed
  pub used_buffers : List Bytes
  pub last_packet_index : Option ℕ
  pub rx_bytes : ℕ
  pub rx_shard_counter : ℕ
  pub duplicated_shard_counter : ℕ

pub record ReceiverData : Type 0 where
  pub buffer : Bytes
  pub size : ℕ
  pub had_packet_loss : Bool
  pub frames_skipped : ℕ
  pub frame_index : ℕ
  pub rx_bytes : ℕ
  pub rx_shard_counter : ℕ
  pub duplicated_shard_counter : ℕ
  pub shards_in_frame : ℕ

pub data Received : Type 0 where
  delivered : ReceiverData → Received
  try_again : Received

-- The packet's counters are added to those carried over from packets that were dropped.
accumulate : StreamReceiver → Reconstructed → List Reconstructed → StreamReceiver
accumulate r p rest = record r {
  packet_queue = rest;
  rx_bytes = u32 (r.rx_bytes + p.rx_bytes);
  rx_shard_counter = u32 (r.rx_shard_counter + p.rx_shard_counter);
  duplicated_shard_counter = u32 (r.duplicated_shard_counter + p.duplicated_shard_counter);
}

deliver : StreamReceiver → Reconstructed → ℕ → Bool → StreamReceiver × Received
deliver r p frames_skipped had_packet_loss = (
  record r {
    rx_bytes = 0;
    rx_shard_counter = 0;
    duplicated_shard_counter = 0;
    last_packet_index = some p.index;
  },
  delivered (record {
    buffer = p.buffer;
    size = p.size;
    had_packet_loss = had_packet_loss;
    frames_skipped = frames_skipped;
    frame_index = p.index;
    rx_bytes = r.rx_bytes;
    rx_shard_counter = r.rx_shard_counter;
    duplicated_shard_counter = r.duplicated_shard_counter;
    shards_in_frame = p.shards_in_frame;
  }),
)

-- The `match` on the packet's place after the last one; a release build wraps the subtraction.
by_order : Ordering → StreamReceiver → Reconstructed → ℕ → StreamReceiver × Received
unfolding deliver
by_order Ordering.eq r p next = deliver r p 0 false
by_order Ordering.gt r p next = deliver r p (wrapping_sub p.index next) true
by_order Ordering.lt r p next =
    (record r { used_buffers = r.used_buffers ++ p.buffer ∷ [] }, try_again)

after_last : Option ℕ → StreamReceiver → Reconstructed → StreamReceiver × Received
unfolding by_order deliver
after_last none r p = deliver r p 0 false
after_last (some last) r p =
    let next = wrapping_add last 1 in by_order (wrapping_cmp p.index next) r p next

from_queue : List Reconstructed → StreamReceiver → StreamReceiver × Received
unfolding accumulate after_last
from_queue [] r = (r, try_again)
from_queue (p ∷ rest) r = after_last r.last_packet_index (accumulate r p rest) p

unfoldable pub recv : StreamReceiver → StreamReceiver × Received
unfolding from_queue
recv r = from_queue r.packet_queue r

-- Where the distance is not half the range, give or take one, the comparison is antisymmetric.
pub wrapping_cmp-swap :
    (a b : ℕ)
    → a < u32_mod
    → b < u32_mod
    → wrapping_cmp a b ≡ Ordering.gt
    → wrapping_cmp b a ≡ Ordering.lt
unfolding wrapping_cmp
wrapping_cmp-swap a b ha hb h = ground arith

-- An index up to 2 ^ 31 - 2 ahead is greater, across the wrap too; one as far behind is less.
pub wrapping_cmp-ahead :
    (a d : ℕ)
    → a < u32_mod
    → 0 < d
    → d < 2147483647
    → (wrapping_cmp (wrapping_add a d) a ≡ Ordering.gt)
      × (wrapping_cmp a (wrapping_add a d) ≡ Ordering.lt)
unfolding wrapping_cmp
wrapping_cmp-ahead a d ha pos small = (ground arith, ground arith)

-- The three distances at which both orders of the arguments give `Less`.
pub wrapping_cmp-both_less :
    (a b : ℕ)
    → a < u32_mod
    → b < u32_mod
    → (wrapping_cmp a b ≡ Ordering.lt) × (wrapping_cmp b a ≡ Ordering.lt)
    → (wrapping_sub a b ≡ 2147483647)
      ⊎ ((wrapping_sub a b ≡ 2147483648) ⊎ (wrapping_sub a b ≡ 2147483649))
unfolding wrapping_cmp
wrapping_cmp-both_less a b ha hb h = ground arith

-- ===== src/Shard/Delivery.antt =====
-- What a run of `StreamReceiver::recv` hands over (alvr_stream_socket.rs).
use si_est_a_vr.Common.{
  ℕ, ◌+◌, ◌≤◌, ◌<◌, ◌≡◌, refl, not, List, [], ◌∷◌, Option, none, some, arith, ◌==◌, u32, u32_mod,
}
use si_est_a_vr.Shard.Order.{
  wrapping_sub, wrapping_cmp, Reconstructed, StreamReceiver, ReceiverData, Received, delivered,
  try_again, recv,
}

add : Received → StreamReceiver × List ReceiverData → StreamReceiver × List ReceiverData
add (delivered d) (r, later) = (r, d ∷ later)
add try_again (r, later) = (r, later)

-- The packets handed over by `recv`, called once for each packet of the queue.
unfoldable pub drain : List Reconstructed → StreamReceiver → StreamReceiver × List ReceiverData
unfolding add
drain [] r = (r, [])
drain (_ ∷ queue) r = let (r', out) = recv r in add out (drain queue r')

recv_takes :
    (r : StreamReceiver) (p : Reconstructed) (rest : List Reconstructed)
    → r.packet_queue ≡ p ∷ rest
    → (recv r).0.packet_queue ≡ rest
unfolding recv
recv_takes r p rest h = ground arith

-- Each index that is handed over lies 1 to 2 ^ 31 - 1 after the one before.
abbrev pub Ahead : Option ℕ → List ReceiverData → Type 0
Ahead last [] = Unit
Ahead none (d ∷ ds) = Ahead (some d.frame_index) ds
Ahead (some l) (d ∷ ds) =
    (0 < wrapping_sub d.frame_index l)
    × (wrapping_sub d.frame_index l ≤ 2147483647)
    × (d.frames_skipped + 1 ≡ wrapping_sub d.frame_index l)
    × (d.had_packet_loss ≡ not (d.frames_skipped == 0))
    × Ahead (some d.frame_index) ds

abbrev pub InRange : List Reconstructed → Type 0
InRange [] = Unit
InRange (p ∷ ps) = (p.index < u32_mod) × InRange ps

abbrev pub LastInRange : Option ℕ → Type 0
LastInRange none = Unit
LastInRange (some l) = l < u32_mod

-- What one call gives from `last` on, for a packet whose index is `index`.
abbrev Follows : Option ℕ → Received → StreamReceiver → Type 0
Follows none (delivered d) r' =
    (r'.last_packet_index ≡ some d.frame_index) × (d.frame_index < u32_mod)
Follows (some l) (delivered d) r' =
    (r'.last_packet_index ≡ some d.frame_index)
    × (d.frame_index < u32_mod)
    × (0 < wrapping_sub d.frame_index l)
    × (wrapping_sub d.frame_index l ≤ 2147483647)
    × (d.frames_skipped + 1 ≡ wrapping_sub d.frame_index l)
    × (d.had_packet_loss ≡ not (d.frames_skipped == 0))
Follows last try_again r' = r'.last_packet_index ≡ last

recv-Follows :
    (last : Option ℕ) (r : StreamReceiver) (p : Reconstructed) (rest : List Reconstructed)
    → r.packet_queue ≡ p ∷ rest
    → r.last_packet_index ≡ last
    → p.index < u32_mod
    → LastInRange last
    → Follows last (recv r).1 (recv r).0
unfolding recv wrapping_cmp
recv-Follows none r p rest h e k l = ground arith
recv-Follows (some m) r p rest h e k l = ground arith

Follows-in_range :
    (last : Option ℕ) (out : Received) (r' : StreamReceiver)
    → Follows last out r'
    → LastInRange last
    → LastInRange r'.last_packet_index
Follows-in_range none (delivered d) r' f l = rw f.0 f.1
Follows-in_range none try_again r' f l = rw f l
Follows-in_range (some m) (delivered d) r' f l = rw f.0 f.1
Follows-in_range (some m) try_again r' f l = rw f l

add-Ahead :
    (last : Option ℕ) (out : Received) (r' : StreamReceiver)
    (rest : StreamReceiver × List ReceiverData)
    → Follows last out r'
    → Ahead r'.last_packet_index rest.1
    → Ahead last (add out rest).1
unfolding add
add-Ahead none (delivered d) r' rest f a = rw f.0 at a
add-Ahead none try_again r' rest f a = rw f at a
add-Ahead (some l) (delivered d) r' rest f a = (f.2, f.3, f.4, f.5, rw f.0 at a)
add-Ahead (some l) try_again r' rest f a = rw f at a

-- Whatever indices the queue holds, those that are handed over each lie 1 to 2 ^ 31 - 1 after the
-- one before, modulo 2 ^ 32; the packets skipped in between are counted, and a loss is reported
-- exactly when there are some.
pub drain-Ahead :
    (queue : List Reconstructed) (r : StreamReceiver)
    → r.packet_queue ≡ queue
    → InRange queue
    → LastInRange r.last_packet_index
    → Ahead r.last_packet_index (drain queue r).1
unfolding drain
drain-Ahead [] r same range last = tt
drain-Ahead (p ∷ queue) r same range last =
    let (r', out) = recv r in
    let f = recv-Follows r.last_packet_index r p queue same refl range.0 last in
    add-Ahead r.last_packet_index out r' (drain queue r') f (
      drain-Ahead queue r' (recv_takes r p queue same) range.1
        (Follows-in_range r.last_packet_index out r' f last))

abbrev pub shards_of : List Reconstructed → ℕ
shards_of [] = 0
shards_of (p ∷ ps) = p.rx_shard_counter + shards_of ps

abbrev pub shards_reported : List ReceiverData → ℕ
shards_reported [] = 0
shards_reported (d ∷ ds) = d.rx_shard_counter + shards_reported ds

abbrev reported : Received → ℕ
reported (delivered d) = d.rx_shard_counter
reported try_again = 0

recv_shards :
    (last : Option ℕ) (r : StreamReceiver) (p : Reconstructed) (rest : List Reconstructed)
    → r.packet_queue ≡ p ∷ rest
    → r.last_packet_index ≡ last
    → (recv r).0.rx_shard_counter + reported (recv r).1
      ≡ u32 (r.rx_shard_counter + p.rx_shard_counter)
unfolding recv
recv_shards none r p rest h e = ground arith
recv_shards (some l) r p rest h e = ground arith

add_shards :
    (out : Received) (rest : StreamReceiver × List ReceiverData)
    → (add out rest).0.rx_shard_counter + shards_reported (add out rest).1
      ≡ reported out + (rest.0.rx_shard_counter + shards_reported rest.1)
unfolding add
add_shards (delivered d) rest = omega arith
add_shards try_again rest = omega arith

-- No received shard is left out of the counts: modulo 2 ^ 32, what is carried over and what is
-- reported add up to what was carried before and what the packets bring, dropped ones included.
pub drain-conserves :
    (queue : List Reconstructed) (r : StreamReceiver)
    → r.packet_queue ≡ queue
    → u32 ((drain queue r).0.rx_shard_counter + shards_reported (drain queue r).1)
      ≡ u32 (r.rx_shard_counter + shards_of queue)
unfolding drain
drain-conserves [] r same = refl
drain-conserves (p ∷ queue) r same =
    let (r', out) = recv r in
    omega (
      arith,
      recv_shards r.last_packet_index r p queue same refl,
      add_shards out (drain queue r'),
      drain-conserves queue r' (recv_takes r p queue same),
    )

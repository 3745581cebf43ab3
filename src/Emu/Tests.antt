-- ===== src/Emu/Tests.antt =====
-- The theorems on an emulated link at concrete inputs.
use si_est_a_vr.Common.{
  ℕ, ◌==◌, if◌then◌else◌, ◌+◌, ◌≡◌, refl, inl, inr, none, some, [], ◌∷◌, ok, arith,
}
use si_est_a_vr.Mac.Edca.{video}
use si_est_a_vr.Ap.Packets.{MpduPacket}
use si_est_a_vr.Emu.Link.{Patterns, QueuedPacket, EmulatedLink, delay, sent, wait, input, drain}
use si_est_a_vr.Emu.Waiting.{IsHeld, IsAwake, Placed, input-IsAwake}
use si_est_a_vr.Emu.Drain.{Drained, drain-IsAwake}

-- Every packet is delayed by 500 ns; one is sent, then each must wait.
abbrev paced : Patterns
paced = record {
  State = ℕ;
  arrival = λ state p now. (delay 500, state);
  try_send = λ state now bits waited. ((if state == 0 then sent else wait 800), state + 1);
}

abbrev shard : MpduPacket
shard = record {
  packet_id = 1;
  length_packet_bits = 12000;
  queue_in_instant = 0;
  queue_out_instant = 0;
  t_q = 0;
  t_s = 0;
  sta_src_id = 1;
  sta_dest_id = 4;
  sta_src_coords = 0;
  queue_length_when_out = 0;
  header_alvr = 0;
  edca_ac = video;
  mac_key_cached = none;
  assigned_link_id = none;
}

abbrev waiting_at : ℕ → QueuedPacket
waiting_at t = record { packet = shard; enqueued_at = t; bandwidth_eligible_at = t + 500 }

-- Two packets wait, and a drain is pending.
abbrev backlog : EmulatedLink paced
backlog = record {
  queue = waiting_at 1000 ∷ waiting_at 1200 ∷ [];
  network_emulator = 0;
  max_queue_size = 10;
  next_flush_scheduled = some 1500;
  output = [];
  scheduled = 1500 ∷ [];
}

backlog-IsHeld : IsHeld paced 2000 backlog
backlog-IsHeld = record { bounded = omega arith; came = (omega arith, (omega arith, tt)) }

backlog-IsAwake : IsAwake paced 2000 backlog
backlog-IsAwake = record {
  held = backlog-IsHeld;
  awake = inr (1500, refl);
  armed = (1500, omega arith, inl refl);
}

input-IsAwake_example :
    IsAwake paced 2500 (input paced shard none 2500 backlog)
    × Placed paced shard 2500 (delay 500) backlog (input paced shard none 2500 backlog)
input-IsAwake_example =
    input-IsAwake paced shard none 2000 2500 backlog (omega arith) backlog-IsAwake

drain-IsAwake_example :
    (l' : EmulatedLink paced) × (drain paced 2000 backlog ≡ ok l')
    × IsAwake paced 2000 l'
    × Drained paced 2000 backlog.queue (record backlog { next_flush_scheduled = none }) l'
drain-IsAwake_example = drain-IsAwake paced 2000 backlog backlog-IsHeld

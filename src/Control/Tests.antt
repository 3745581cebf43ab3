-- ===== src/Control/Tests.antt =====
-- The theorems on the control socket and the report at concrete inputs.
use si_est_a_vr.Common.{
  ℕ, ◌+◌, ◌≡◌, refl, true, none, some, List, [], ◌∷◌, ◌++◌, arith, Bytes, ok, err, panic,
}
use si_est_a_vr.Shard.Sender.{Channel}
use si_est_a_vr.Shard.Buffered.{BufferedReceiver, try_again, queue}
use si_est_a_vr.Control.Framing.{Bincode, send_all, framed_recv, recv_until}
use si_est_a_vr.Control.Framed.{Decode, send_all-Decode}
use si_est_a_vr.Control.Receiving.{framed_recv-panics, recv_until-ends}
use si_est_a_vr.Control.Report.{NadaTimerReport, encode, decode}
use si_est_a_vr.Control.Reported.{decode-encode}

same_bytes : (p bs : Bytes) → some p ≡ some bs → some bs ≡ some p
same_bytes p bs h = cc

-- Packets that are bytes.
abbrev plain : Bincode Bytes
plain = record {
  serialized = λ p. some p;
  deserialize = λ bs. some bs;
  deserialize-serialized = same_bytes;
}

abbrev idle : Channel
idle = record { pending = []; connected = true }

-- The second one is shorter, so bytes of the first one follow it.
abbrev packets : List Bytes
packets = (1 ∷ 2 ∷ 3 ∷ []) ∷ (4 ∷ []) ∷ []

send_all-Decode_example :
    (ms : List Bytes) × (buffer' : Bytes) × (send_all plain packets idle []
      ≡ ok (record idle { pending = [] ++ ms }, buffer'))
    × Decode plain ms packets
send_all-Decode_example =
    send_all-Decode plain packets idle [] refl
      ((1 ∷ 2 ∷ 3 ∷ [], refl, omega arith), ((4 ∷ [], refl, omega arith), tt))

abbrev one_waits : BufferedReceiver
one_waits = record {
  receiver = record { pending = (0 ∷ 0 ∷ 0 ∷ 1 ∷ 9 ∷ []) ∷ []; connected = true };
  buffer = none;
}

abbrev ticking : ℕ → ℕ
ticking n = n + 10

framed_recv-panics_example : (framed_recv plain ticking 5 1 [] one_waits).0 ≡ panic
unfolding queue
framed_recv-panics_example =
    framed_recv-panics plain ticking 5 0 [] (0 ∷ 0 ∷ 0 ∷ 1 ∷ 9 ∷ []) [] one_waits refl (omega arith)

abbrev none_waits : BufferedReceiver
none_waits = record { receiver = idle; buffer = none }

recv_until-ends_example :
    recv_until plain ticking 12 5 1 [] none_waits ≡ (err try_again, [], none_waits)
recv_until-ends_example =
    recv_until-ends plain ticking 12 3 5 1 [] none_waits refl refl refl (omega arith) (omega arith)

abbrev report : NadaTimerReport
report = record {
  seq = 7;
  xcurr = 4623226492472524800;
  rmode = 1;
  recv = 61000000;
  plr = 4576918229304087675;
  d_tilde = 4612811918334230528;
  d_queue = 3000;
}

decode-encode_example : decode (encode report ++ 0 ∷ []) ≡ some report
decode-encode_example = decode-encode report (0 ∷ []) (record {
  seq_lt = omega arith;
  xcurr_lt = omega arith;
  recv_lt = omega arith;
  plr_lt = omega arith;
  d_tilde_lt = omega arith;
  d_queue_lt = omega arith;
})

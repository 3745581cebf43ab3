-- ===== src/Control/Receiving.antt =====
-- How long `framed_recv` waits, and for what it has room (alvr_control_socket.rs).
use si_est_a_vr.Common.{
  ℕ, zero, suc, ◌+◌, ◌-◌, ◌<◌, ◌≡◌, refl, true, none, List, [], ◌∷◌, ltb, length, Bytes, write_at,
  ok, err, panic, arith, inl, inr, Bool-cases, Outcome, hang,
}
use native.Mathlib.Decide.{dec_lt}
use si_est_a_vr.Shard.Buffered.{
  BufferedReceiver, ConnectionError, try_again, other, recv, queue, recv_too_long, try_recv,
}
use si_est_a_vr.Control.Framing.{Bincode, Received, recv_until, recv_round, framed_recv}

module _ {Packet : Type 0} (bincode : Bincode Packet) where
  broken_round :
      (again : ℕ → Bytes → BufferedReceiver → Received bincode) (clock : ℕ → ℕ) (deadline n : ℕ)
      (buffer : Bytes) (x : BufferedReceiver × Outcome ConnectionError Bytes)
      → x.1 ≡ err other
      → (recv_round bincode again clock deadline n buffer x).0 ≡ panic
  broken_round again clock deadline n buffer (r, ok m) h = absurd (ground (arith, h))
  broken_round again clock deadline n buffer (r, err e) h = refl
  broken_round again clock deadline n buffer (r, panic) h = refl
  broken_round again clock deadline n buffer (r, hang) h = absurd (ground (arith, h))

  write_nothing : (b : Bytes) → write_at b 0 [] ≡ b
  write_nothing [] = refl
  write_nothing (x ∷ b) = refl

  recv_nothing :
      (r : BufferedReceiver) (room : ℕ)
      → r.buffer ≡ none
      → r.receiver.pending ≡ []
      → r.receiver.connected ≡ true
      → recv r room ≡ (r, ok [])
  unfolding recv try_recv
  recv_nothing r room free idle on = ground (arith, free, idle, on)

  -- A call whose buffer is shorter than the next message panics. Both receivers of the source hand
  -- over a buffer that has no bytes at first.
  pub framed_recv-panics :
      (clock : ℕ → ℕ) (timeout fuel : ℕ) (buffer m : Bytes) (rest : List Bytes)
      (r : BufferedReceiver)
      → queue r ≡ m ∷ rest
      → length buffer < length m
      → (framed_recv bincode clock timeout (suc fuel) buffer r).0 ≡ panic
  unfolding framed_recv recv_until
  framed_recv-panics clock timeout fuel buffer m rest r waiting long =
      broken_round (recv_until bincode clock (clock 0 + timeout) fuel) clock (clock 0 + timeout) 1
        buffer (recv r (length buffer)) (recv_too_long r (length buffer) m rest waiting long).0

  -- Where nothing comes, the call ends by its time: a wait whose n-th reading of the clock is behind
  -- the deadline gives up by then, for enough fuel, and leaves the buffer.
  pub recv_until-ends :
      (clock : ℕ → ℕ) (deadline left fuel n : ℕ) (buffer : Bytes) (r : BufferedReceiver)
      → r.buffer ≡ none
      → r.receiver.pending ≡ []
      → r.receiver.connected ≡ true
      → deadline < clock (n + left)
      → left < fuel
      → recv_until bincode clock deadline fuel n buffer r ≡ (err try_again, buffer, r)
  unfolding recv_until
  recv_until-ends clock deadline left zero n buffer r free idle on late enough =
      absurd (omega arith)
  recv_until-ends clock deadline left (suc fuel) n buffer r free idle on late enough =
      rw (recv_nothing r (length buffer) free idle on, write_nothing buffer)
        (elim (Bool-cases (ltb deadline (clock n))) [
          | inl over ↦ rw over refl
          | inr early ↦
              let more : 0 < left = elim (dec_lt 0 left) [
                | yes h ↦ h
                | no h ↦
                    let here : n + left ≡ n = omega arith in
                    absurd (ground (arith, early, rw here at late))
              ] in
              let next : suc n + (left - 1) ≡ n + left = omega arith in
              rw early (
                recv_until-ends clock deadline (left - 1) fuel (suc n) buffer r free idle on
                  (rw next late) (omega arith))
        ])

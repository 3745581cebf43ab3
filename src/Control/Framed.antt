-- ===== src/Control/Framed.antt =====
-- Control packets come out of their frames as they went in (alvr_control_socket.rs).
use mathlib.Core.List.{append_assoc, append-nil}
use si_est_a_vr.Common.{
  ℕ, zero, ◌+◌, ◌<◌, ◌≤◌, ◌≡◌, refl, sym, ap, ◌∙◌, true, some, List, [], ◌∷◌, ◌++◌, ltb, length,
  take, drop, Bytes, byte, write_at, be32, u32, ok, arith, if_elim, length-resize, length-write_at,
  byte-write_at, byte-write_at_below, list_ext, length-take, length-drop, get_or-take, get_or-drop,
  le→ltb_false,
}
use si_est_a_vr.Shard.Sender.{Channel}
use si_est_a_vr.Control.Framing.{
  Bincode, grow, prefix_length, frame_into, framed_send, framed_recv_vec, send_all,
}

length-grow_le : (n : ℕ) (b : Bytes) → n ≤ length (grow n b)
length-grow_le n b =
    if_elim (λ x. n ≤ length x) (ltb (length b) n) (λ e. omega (arith, length-resize n b))
      (λ e. ground (arith, e))

module _ {Packet : Type 0} (bincode : Bincode Packet) where
  module _ (bs buffer : Bytes) where
    length-frame_into_le : length bs + 4 ≤ length (frame_into bincode bs buffer)
    length-frame_into_le = omega (
      arith,
      length-write_at (write_at (grow (length bs + 4) buffer) 0 (be32 (u32 (length bs)))) 4 bs,
      length-write_at (grow (length bs + 4) buffer) 0 (be32 (u32 (length bs))),
      length-grow_le (length bs + 4) buffer,
    )

    -- A byte of the prefix.
    byte-frame_into :
        (i : ℕ) → i < 4 → byte (frame_into bincode bs buffer) i ≡ byte (be32 (u32 (length bs))) i
    byte-frame_into i h =
        byte-write_at_below (write_at (grow (length bs + 4) buffer) 0 (be32 (u32 (length bs)))) 4 bs
          i h
        ∙ byte-write_at (grow (length bs + 4) buffer) 0 (be32 (u32 (length bs))) i i (omega arith) h
            (omega (arith, length-grow_le (length bs + 4) buffer))

    prefix_length-frame_into :
        length bs < 4294967296 → prefix_length (frame_into bincode bs buffer) ≡ length bs
    prefix_length-frame_into h =
        rw
          (
            byte-frame_into 0 (omega arith),
            byte-frame_into 1 (omega arith),
            byte-frame_into 2 (omega arith),
            byte-frame_into 3 (omega arith),
          )
          (omega arith)

    body-frame_into : take (length bs) (drop 4 (frame_into bincode bs buffer)) ≡ bs
    body-frame_into =
        let framed = frame_into bincode bs buffer in
        let long : length (take (length bs) (drop 4 framed)) ≡ length bs = omega (
          arith,
          length-take {0} (length bs) (drop 4 framed),
          length-drop {0} 4 framed,
          length-frame_into_le,
        ) in
        list_ext (take (length bs) (drop 4 framed)) bs zero long (λ i h.
          get_or-take (drop 4 framed) (length bs) i 0 (omega (arith, long))
          ∙ get_or-drop framed 4 i (4 + i) 0 refl
          ∙ byte-write_at (write_at (grow (length bs + 4) buffer) 0 (be32 (u32 (length bs)))) 4 bs
              (4 + i) i refl (omega (arith, long))
              (omega (
                arith,
                length-write_at (grow (length bs + 4) buffer) 0 (be32 (u32 (length bs))),
                length-grow_le (length bs + 4) buffer,
              )))

  framed_recv_vec-frame_into :
      (p : Packet) (bs buffer : Bytes)
      → bincode.serialized p ≡ some bs
      → length bs < 4294967296
      → framed_recv_vec bincode (frame_into bincode bs buffer) ≡ ok p
  unfolding framed_recv_vec
  framed_recv_vec-frame_into p bs buffer s h =
      let framed = frame_into bincode bs buffer in
      let long = length-frame_into_le bs buffer in
      rw
        (
          le→ltb_false (length framed) 4 (omega (arith, long)),
          prefix_length-frame_into bs buffer h,
          le→ltb_false (length framed) (4 + length bs) (omega (arith, long)),
          body-frame_into bs buffer,
          bincode.deserialize-serialized p bs s,
        )
        refl

  framed_send-ok :
      (p : Packet) (bs buffer : Bytes) (sender : Channel)
      → bincode.serialized p ≡ some bs
      → sender.connected ≡ true
      → framed_send bincode sender buffer p
        ≡ ok (
          record sender { pending = sender.pending ++ frame_into bincode bs buffer ∷ [] },
          frame_into bincode bs buffer,
        )
  unfolding framed_send
  framed_send-ok p bs buffer sender e on = ground (arith, e, on)

  -- Packets that bincode can serialize to fewer than 2^32 bytes.
  abbrev pub Serialize : List Packet → Type 0
  Serialize [] = Unit
  Serialize (p ∷ ps) =
      ((bs : Bytes) × (bincode.serialized p ≡ some bs) × (length bs < 4294967296)) × Serialize ps

  -- Each message is read as its packet.
  abbrev pub Decode : List Bytes → List Packet → Type 0
  Decode [] [] = Unit
  Decode [] (p ∷ ps) = ⊥
  Decode (m ∷ ms) [] = ⊥
  Decode (m ∷ ms) (p ∷ ps) = (framed_recv_vec bincode m ≡ ok p) × Decode ms ps

  -- Control packets that serialize to fewer than 2^32 bytes, sent one after the other on a connected
  -- channel with one buffer, whatever it holds, are all accepted: each gives one message behind those
  -- that were there, in order, and reading the messages gives the packets back.
  pub send_all-Decode :
      (ps : List Packet) (sender : Channel) (buffer : Bytes)
      → sender.connected ≡ true
      → Serialize ps
      → (ms : List Bytes) × (buffer' : Bytes) × (send_all bincode ps sender buffer
          ≡ ok (record sender { pending = sender.pending ++ ms }, buffer'))
        × Decode ms ps
  unfolding send_all
  send_all-Decode [] sender buffer on s = (
    [],
    buffer,
    ap (λ pending. ok (record sender { pending = pending }, buffer))
        (sym (append-nil sender.pending)),
    tt,
  )
  send_all-Decode (p ∷ ps) sender buffer on ((bs, e, h), s) =
      let framed = frame_into bincode bs buffer in
      let (ms, buffer', result, decoded) =
        send_all-Decode ps (record sender { pending = sender.pending ++ framed ∷ [] }) framed on
          s in
      (
        framed ∷ ms,
        buffer',
        rw (framed_send-ok p bs buffer sender e on) (
            result
            ∙ ap (λ pending. ok (record sender { pending = pending }, buffer'))
                (append_assoc sender.pending (framed ∷ []) ms)),
        (framed_recv_vec-frame_into p bs buffer e h, decoded),
      )

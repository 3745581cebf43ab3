-- ===== src/Ap/Packets.antt =====
-- `MpduPacket` (asynchronix/examples/lib/mod.rs). The coordinates and the transport's header are
-- opaque numbers; the payload and the fields of the emulated interface, which the access point only
-- carries, are left out. A station's id is an `i32`, here its 32 bits.
use si_est_a_vr.Common.{
  ℕ, ◌+◌, ◌%◌, Bool, true, ltb, if◌then◌else◌, Option, none, some, Outcome, ok, panic,
}
use si_est_a_vr.Mac.Edca.{EdcaAc, MacKey}
use si_est_a_vr.Mac.Tick.{NoError}

pub record MpduPacket : Type 0 where
  pub packet_id : ℕ
  pub length_packet_bits : ℕ
  pub queue_in_instant : ℕ
  pub queue_out_instant : ℕ
  pub t_q : ℕ
  pub t_s : ℕ
  pub sta_src_id : ℕ
  pub sta_dest_id : ℕ
  pub sta_src_coords : ℕ
  pub queue_length_when_out : ℕ
  pub header_alvr : ℕ
  pub edca_ac : EdcaAc
  pub mac_key_cached : Option MacKey
  pub assigned_link_id : Option ℕ

abbrev pub str_plus_mode_mlo : Bool
str_plus_mode_mlo = true

-- The order of two `i32`: 2 ^ 31 is added to both.
abbrev pub signed_gt : ℕ → ℕ → Bool
signed_gt a b = ltb ((b + 2147483648) % 4294967296) ((a + 2147483648) % 4294967296)

-- `sta_src_id > sta_dest_id`.
abbrev pub is_ul : MpduPacket → Bool
is_ul p = signed_gt p.sta_src_id p.sta_dest_id

-- -1, the access point's own id.
abbrev pub ap_id : ℕ
ap_id = 4294967295

assign_once : Option ℕ → ℕ → MpduPacket → Outcome NoError MpduPacket
assign_once none link p = ok (record p { assigned_link_id = some link })
assign_once (some old) link p = panic

-- The assertion that no link is assigned yet is only reached out of the STR+ mode.
unfoldable pub assign_link : ℕ → MpduPacket → Outcome NoError MpduPacket
unfolding assign_once
assign_link link p =
    if str_plus_mode_mlo
    then ok (record p { assigned_link_id = none })
    else assign_once p.assigned_link_id link p

-- The station in whose queue a packet waits: its source upwards, the access point downwards.
abbrev pub owner_of : MpduPacket → ℕ
owner_of p = if is_ul p then p.sta_src_id else ap_id

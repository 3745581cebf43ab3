-- ===== src/Codec/Hevc.antt =====
-- `HevcParser` (mod.rs): an HEVC byte stream is cut at its start codes into NAL units, and these are
-- collected into frames. Where the buffer holds one or two bytes, `self.buffer.len() - 3` underflows:
-- a debug build panics there, and a release build when its loop has left the buffer.
use si_est_a_vr.Common.{
  ℕ, zero, suc, ◌+◌, ◌-◌, ◌/◌, ◌%◌, Bool, false, not, ◌&&◌, ◌||◌, List, [], ◌∷◌, ◌++◌, Option, none,
  some, leb, ltb, ◌==◌, if◌then◌else◌, length, take, drop, Bytes, byte, Outcome, ok, hang, ◌>>=◌,
  require,
}

pub record NalUnit : Type 0 where
  pub nal_type : ℕ  -- u8
  pub bytes : Bytes
  pub is_keyframe : Bool

pub record HevcParser : Type 0 where
  pub buffer : Bytes
  pub vps : Option Bytes
  pub sps : Option Bytes
  pub pps : Option Bytes
  pub pending_frame : Bytes
  pub pending_has_vcl : Bool

abbrev pub new : HevcParser
new = record {
  buffer = [];
  vps = none;
  sps = none;
  pps = none;
  pending_frame = [];
  pending_has_vcl = false;
}

-- There is no error but a panic.
pub data NoError : Type 0 where

abbrev pub add_bytes : Bytes → HevcParser → HevcParser
add_bytes more p = record p { buffer = p.buffer ++ more }

unfoldable pub reset_for_new_chunk : HevcParser → HevcParser
reset_for_new_chunk p = record p { buffer = []; pending_frame = []; pending_has_vcl = false }

-- A start code of three bytes at `i`, or one of four that is not the end of the buffer.
unfoldable pub is_start_code : Bytes → ℕ → Bool
is_start_code b i =
    (byte b i == 0 && (byte b (i + 1) == 0 && byte b (i + 2) == 1))
    || (ltb i (length b - 4)
        && (byte b i == 0 && (byte b (i + 1) == 0 && (byte b (i + 2) == 0 && byte b (i + 3) == 1))))

-- The loop over the next `count` positions.
unfoldable pub find_from : Bytes → ℕ → ℕ → Option ℕ
find_from b zero i = none
find_from b (suc count) i =
    let rest = find_from b count (suc i) in if is_start_code b i then some i else rest

unfoldable pub find_next_start_code : Bytes → ℕ → Outcome NoError (Option ℕ)
find_next_start_code b start =
    if length b == 0
    then ok none
    else require (leb 3 (length b)) (ok (find_from b (length b - 3 - start) start))

unfoldable pub start_code_len : Bytes → ℕ → ℕ
start_code_len b start =
    if ltb (start + 3) (length b) && (byte b (start + 2) == 0 && byte b (start + 3) == 1)
    then 4
    else 3

-- The latest parameter sets, each with its start code.
unfoldable pub store_parameter_set : ℕ → Bytes → HevcParser → HevcParser
store_parameter_set nal_type full p =
    if nal_type == 32
    then record p { vps = some full }
    else (if nal_type == 33
        then record p { sps = some full }
        else (if nal_type == 34 then record p { pps = some full } else p))

-- The unit between two start codes, which are at `start` and at `nal_end`.
unfoldable pub unit_at : ℕ → ℕ → Bytes → NalUnit
unit_at start nal_end b =
    let header = start + start_code_len b start in
    let nal_type = byte b header / 2 % 64 in
    record {
      nal_type = nal_type;
      bytes = take (nal_end - header) (drop header b);
      is_keyframe = leb 16 nal_type && leb nal_type 21;
    }

-- What stands before the first start code is dropped with the unit.
unfoldable pub remove_unit : ℕ → ℕ → HevcParser → HevcParser
remove_unit start nal_end p =
    record (store_parameter_set (unit_at start nal_end p.buffer).nal_type
      (take (nal_end - start) (drop start p.buffer)) p) { buffer = drop nal_end p.buffer }

unfoldable pub cut_unit : ℕ → ℕ → HevcParser → HevcParser × Option NalUnit
cut_unit start nal_end p =
    if leb (length p.buffer) (start + start_code_len p.buffer start)
    then (p, none)
    else (remove_unit start nal_end p, some (unit_at start nal_end p.buffer))

after_next : Option ℕ → ℕ → HevcParser → HevcParser × Option NalUnit
after_next none start p = (p, none)
after_next (some nal_end) start p = cut_unit start nal_end p

after_first : Option ℕ → HevcParser → Outcome NoError (HevcParser × Option NalUnit)
unfolding after_next
after_first none p = ok (p, none)
after_first (some start) p = do
  next ← find_next_start_code p.buffer (start + start_code_len p.buffer start)
  ok (after_next next start p)

unfoldable pub next_nal_unit : HevcParser → Outcome NoError (HevcParser × Option NalUnit)
unfolding after_first
next_nal_unit p = do first ← find_next_start_code p.buffer 0; after_first first p

-- A unit of picture data closes the frame before it, if that has one already.
unfoldable pub add_unit : NalUnit → HevcParser → HevcParser × List Bytes
add_unit u p =
    let is_vcl = leb u.nal_type 31 in
    let closes = is_vcl && p.pending_has_vcl in
    let emits = closes && not (length p.pending_frame == 0) in
    (
      record p {
        pending_frame =
            (if emits then [] else p.pending_frame) ++ ((0 ∷ 0 ∷ 0 ∷ 1 ∷ []) ++ u.bytes);
        pending_has_vcl = is_vcl || p.pending_has_vcl;
      },
      (if emits then p.pending_frame ∷ [] else []),
    )

-- One round of the loop of `get_frames`, before the next.
abbrev pub frames_after :
    (HevcParser → Outcome NoError (HevcParser × List Bytes))
    → HevcParser × Option NalUnit
    → Outcome NoError (HevcParser × List Bytes)
frames_after again (p, none) = ok (p, [])
frames_after again (p, some u) = do
  let (p', out) = add_unit u p
  (q, later) ← again p'
  ok (q, out ++ later)

-- The loop on fuel.
unfoldable pub frames_from : ℕ → HevcParser → Outcome NoError (HevcParser × List Bytes)
frames_from zero p = hang
frames_from (suc fuel) p = do r ← next_nal_unit p; frames_after (frames_from fuel) r

-- Each round that goes on takes bytes from the buffer, so their number is fuel enough.
unfoldable pub get_frames : HevcParser → Outcome NoError (HevcParser × List Bytes)
get_frames p = frames_from (suc (length p.buffer)) p

unfoldable pub flush_final_frame : HevcParser → HevcParser × Option Bytes
flush_final_frame p = (
  record p { pending_frame = []; pending_has_vcl = false },
  (if p.pending_has_vcl && not (length p.pending_frame == 0) then some p.pending_frame else none),
)

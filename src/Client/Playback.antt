-- ===== src/Client/Playback.antt =====
-- How the headset shows its frames (models_XR.rs): the end of `video_receive_thread`, where a frame
-- joins the decoder's queue, the part of `vsync` that takes one, `session_end` and `session_reboot`
-- as far as they touch these. A frame is its index and its bytes. The decoder, the window, the
-- statistics and the timed window of re-buffering events, of which the number is kept, are left out.
use si_est_a_vr.Common.{
  ℕ, ◌+◌, Bool, true, false, not, ◌&&◌, ◌==◌, leb, if◌then◌else◌, Option, none, some, List, [], ◌∷◌,
  ◌++◌, length, Bytes,
}
use si_est_a_vr.Client.Queue.{DroppingVecDeque, new, clear, push, pop}

abbrev pub Frame : Type 0
Frame = ℕ × Bytes

abbrev pub target_frames_decoder_queue : ℕ
target_frames_decoder_queue = 3

pub record Playback : Type 0 where
  pub decoder_queue : DroppingVecDeque Frame
  pub jitter_buffer_warmup_ready : Bool
  pub last_seen_id : ℕ
  pub last_processed_frame_id : ℕ
  pub rebuffer_events : ℕ

abbrev pub start : Playback
start = record {
  decoder_queue = new target_frames_decoder_queue;
  jitter_buffer_warmup_ready = false;
  last_seen_id = 0;
  last_processed_frame_id = 0;
  rebuffer_events = 0;
}

unfoldable pub receive_frame : Frame → Playback → Playback
receive_frame f p = record p { decoder_queue = push f p.decoder_queue }

-- A frame that is shown, with the mark that one before it was lost.
pub data Shown : Type 0 where
  shown : Frame → Bool → Shown

abbrev pub frames_of : List Shown → List Frame
frames_of [] = []
frames_of (shown f lost ∷ fs) = f ∷ frames_of fs

abbrev pub show : Option Frame → Playback → List Shown × Playback
show none p = ([], record p { rebuffer_events = p.rebuffer_events + 1 })
show (some (id, bytes)) p = (
  shown (id, bytes) (not (p.last_seen_id == 0) && not (id == p.last_seen_id + 1)) ∷ [],
  record p { last_seen_id = id; last_processed_frame_id = id },
)

-- Until the queue has held enough frames at a tick, none is taken.
unfoldable pub vsync : Playback → List Shown × Playback
vsync p =
    let (item, rest) = pop p.decoder_queue in
    if p.jitter_buffer_warmup_ready then show item (record p { decoder_queue = rest }) else (
      [],
      (if leb target_frames_decoder_queue (length p.decoder_queue.deque)
          then record p { jitter_buffer_warmup_ready = true }
          else p),
    )

unfoldable pub session_end : Playback → Playback
session_end p = record p {
  decoder_queue = clear p.decoder_queue;
  jitter_buffer_warmup_ready = false;
}

unfoldable pub session_reboot : Playback → Playback
session_reboot p = record p { decoder_queue = clear p.decoder_queue }

pub data Event : Type 0 where
  frame_event : Frame → Event
  vsync_event session_end_event session_reboot_event : Event

abbrev pub received : List Event → List Frame
received [] = []
received (frame_event f ∷ es) = f ∷ received es
received (vsync_event ∷ es) = received es
received (session_end_event ∷ es) = received es
received (session_reboot_event ∷ es) = received es

-- What is shown, in order, and the last state.
abbrev pub play : List Event → Playback → List Shown × Playback
play [] p = ([], p)
play (frame_event f ∷ es) p = play es (receive_frame f p)
play (session_end_event ∷ es) p = play es (session_end p)
play (session_reboot_event ∷ es) p = play es (session_reboot p)
play (vsync_event ∷ es) p =
    let (now, p') = vsync p in let (later, p'') = play es p' in (now ++ later, p'')

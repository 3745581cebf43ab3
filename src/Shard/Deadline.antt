-- ===== src/Shard/Deadline.antt =====
-- What giving up late frames does (alvr_stream_socket.rs, `sweep_expired_deadlines_in`).
use mathlib.Core.Path.{subst}
use si_est_a_vr.Common.{
  ℕ, ◌-◌, ◌<◌, ◌≡◌, refl, false, List, [], ◌∷◌, ◌++◌, Option, none, some, arith, ◌==◌,
  if◌then◌else◌, length, Bytes, ok, lookup, insert, remove, inl, inr, Bool-cases, le→leb, if_elim,
}
use si_est_a_vr.Shard.Assembly.{InProgress}
use si_est_a_vr.Shard.Receiver.{
  StreamRecvComponents, StreamSocket, is_expired, sweep_packets, sweep_streams, insert_all,
  sweep_expired_deadlines,
}

-- A packet in progress lacks at least one of the shards that it expects.
abbrev pub IsLive : InProgress → Type 0
IsLive p = length p.received_shard_indices < p.num_shards_expected

abbrev pub AllLive : List (ℕ × InProgress) → Type 0
AllLive [] = Unit
AllLive ((id, p) ∷ m) = IsLive p × AllLive m

abbrev pub StreamsLive : List (ℕ × StreamRecvComponents) → Type 0
StreamsLive [] = Unit
StreamsLive ((id, c) ∷ cs) = AllLive c.in_progress_packets × StreamsLive cs

pub AllLive-remove : (k : ℕ) (m : List (ℕ × InProgress)) → AllLive m → AllLive (remove k m)
AllLive-remove k [] h = tt
AllLive-remove k ((j, p) ∷ m) h =
    if_elim AllLive (j == k) (λ _. AllLive-remove k m h.1) (λ _. (h.0, AllLive-remove k m h.1))

pub AllLive-insert :
    (k : ℕ) (p : InProgress) (m : List (ℕ × InProgress))
    → IsLive p
    → AllLive m
    → AllLive (insert k p m)
AllLive-insert k p [] l h = (l, tt)
AllLive-insert k p ((j, q) ∷ m) l h =
    if_elim AllLive (j == k) (λ _. (l, h.1)) (λ _. (h.0, AllLive-insert k p m l h.1))

abbrev LiveOption : Option InProgress → Type 0
LiveOption none = Unit
LiveOption (some p) = IsLive p

abbrev LiveStream : Option StreamRecvComponents → Type 0
LiveStream none = Unit
LiveStream (some c) = AllLive c.in_progress_packets

pub AllLive-lookup :
    (k : ℕ) (m : List (ℕ × InProgress)) {p : InProgress}
    → AllLive m
    → lookup k m ≡ some p
    → IsLive p
AllLive-lookup k [] h e = cc
AllLive-lookup k ((j, q) ∷ m) {p} h e = elim (Bool-cases (j == k)) [
  | inl here ↦ subst LiveOption (rw here at e) h.0
  | inr there ↦ AllLive-lookup k m h.1 (rw there at e)
]

pub StreamsLive-insert :
    (k : ℕ) (c : StreamRecvComponents) (cs : List (ℕ × StreamRecvComponents))
    → AllLive c.in_progress_packets
    → StreamsLive cs
    → StreamsLive (insert k c cs)
StreamsLive-insert k c [] l h = (l, tt)
StreamsLive-insert k c ((j, q) ∷ cs) l h =
    if_elim StreamsLive (j == k) (λ _. (l, h.1)) (λ _. (h.0, StreamsLive-insert k c cs l h.1))

pub StreamsLive-lookup :
    (k : ℕ) (cs : List (ℕ × StreamRecvComponents)) {c : StreamRecvComponents}
    → StreamsLive cs
    → lookup k cs ≡ some c
    → AllLive c.in_progress_packets
StreamsLive-lookup k [] h e = cc
StreamsLive-lookup k ((j, q) ∷ cs) {c} h e = elim (Bool-cases (j == k)) [
  | inl here ↦ subst LiveStream (rw here at e) h.0
  | inr there ↦ StreamsLive-lookup k cs h.1 (rw there at e)
]

-- An independent account of a sweep: what is on time is kept, and of what is late the missing
-- shards are counted.
abbrev pub on_time : ℕ → List (ℕ × InProgress) → List (ℕ × InProgress)
on_time now [] = []
on_time now ((id, p) ∷ m) =
    if is_expired p.deadline now then on_time now m else (id, p) ∷ on_time now m

abbrev pub losses : ℕ → List (ℕ × InProgress) → List (ℕ × ℕ)
losses now [] = []
losses now ((id, p) ∷ m) =
    if is_expired p.deadline now
    then (p.id_frame, p.num_shards_expected - length p.received_shard_indices) ∷ losses now m
    else losses now m

pub AllLive-on_time : (now : ℕ) (m : List (ℕ × InProgress)) → AllLive m → AllLive (on_time now m)
AllLive-on_time now [] h = tt
AllLive-on_time now ((id, p) ∷ m) h =
    if_elim AllLive (is_expired p.deadline now) (λ _. AllLive-on_time now m h.1)
      (λ _. (h.0, AllLive-on_time now m h.1))

-- An empty buffer for each late packet that had got one.
abbrev pub recycled : ℕ → List (ℕ × InProgress) → List Bytes
recycled now [] = []
recycled now ((id, p) ∷ m) =
    let rest = recycled now m in
    if is_expired p.deadline now then (if length p.buffer == 0 then rest else [] ∷ rest) else rest

sweep_packets_lem :
    (now : ℕ) (m : List (ℕ × InProgress))
    → AllLive m
    → sweep_packets now m
      ≡ ok (record { kept = on_time now m; lost = losses now m; recycled = recycled now m })
unfolding sweep_packets
sweep_packets_lem now [] h = refl
sweep_packets_lem now ((id, p) ∷ m) h =
    rw (sweep_packets_lem now m h.1) (elim (Bool-cases (is_expired p.deadline now)) [
      | inl late ↦ rw (
        late,
        le→leb (length p.received_shard_indices) p.num_shards_expected (omega (arith, h.0)),
      )
      | inr early ↦ rw early
    ])

abbrev pub swept_streams : ℕ → List (ℕ × StreamRecvComponents) → List (ℕ × StreamRecvComponents)
swept_streams now [] = []
swept_streams now ((id, c) ∷ cs) =
    (
      id,
      record c {
        in_progress_packets = on_time now c.in_progress_packets;
        used_buffers = c.used_buffers ++ recycled now c.in_progress_packets;
      },
    )
    ∷ swept_streams now cs

abbrev pub all_losses : ℕ → List (ℕ × StreamRecvComponents) → List (ℕ × ℕ) → List (ℕ × ℕ)
all_losses now [] lost = lost
all_losses now ((id, c) ∷ cs) lost =
    all_losses now cs (insert_all (losses now c.in_progress_packets) lost)

sweep_streams_lem :
    (now : ℕ) (cs : List (ℕ × StreamRecvComponents)) (lost : List (ℕ × ℕ))
    → StreamsLive cs
    → sweep_streams now cs lost ≡ ok (swept_streams now cs, all_losses now cs lost)
unfolding sweep_streams
sweep_streams_lem now [] lost h = refl
sweep_streams_lem now ((id, c) ∷ cs) lost h = rw (
  sweep_packets_lem now c.in_progress_packets h.0,
  sweep_streams_lem now cs (insert_all (losses now c.in_progress_packets) lost) h.1,
)

pub StreamsLive-swept :
    (now : ℕ) (cs : List (ℕ × StreamRecvComponents))
    → StreamsLive cs
    → StreamsLive (swept_streams now cs)
StreamsLive-swept now [] h = tt
StreamsLive-swept now ((id, c) ∷ cs) h =
    (AllLive-on_time now c.in_progress_packets h.0, StreamsLive-swept now cs h.1)

-- While every packet in progress lacks a shard, a sweep does not panic. It keeps the packets that
-- are on time, in every stream, and records for each late one how many shards it lacks, and
-- every packet that is kept still lacks one.
pub sweep_expired_deadlines_lem :
    (now : ℕ) (s : StreamSocket)
    → StreamsLive s.stream_recv_components
    → (sweep_expired_deadlines now s
        ≡ ok (record s {
          stream_recv_components = swept_streams now s.stream_recv_components;
          lost_shards_deadline_map =
              all_losses now s.stream_recv_components s.lost_shards_deadline_map;
        }))
      × StreamsLive (swept_streams now s.stream_recv_components)
unfolding sweep_expired_deadlines
sweep_expired_deadlines_lem now s h = (
  rw (sweep_streams_lem now s.stream_recv_components s.lost_shards_deadline_map h),
  StreamsLive-swept now s.stream_recv_components h,
)

-- After a sweep no packet in progress is late.
abbrev pub NoneLate : ℕ → List (ℕ × InProgress) → Type 0
NoneLate now [] = Unit
NoneLate now ((id, p) ∷ m) = (is_expired p.deadline now ≡ false) × NoneLate now m

pub on_time-NoneLate : (now : ℕ) (m : List (ℕ × InProgress)) → NoneLate now (on_time now m)
on_time-NoneLate now [] = tt
on_time-NoneLate now ((id, p) ∷ m) =
    if_elim (NoneLate now) (is_expired p.deadline now) (λ _. on_time-NoneLate now m)
      (λ e. (e, on_time-NoneLate now m))

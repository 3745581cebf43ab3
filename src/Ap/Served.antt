-- ===== src/Ap/Served.antt =====
-- A link's turn in a slot: its ready keys meet, and what comes of it (models_mm1k.rs,
-- `deque_schedule_service`).
use si_est_a_vr.Common.{ℕ, ◌≡◌, List, [], Outcome, ok, err, panic, hang}
use si_est_a_vr.Mac.Edca.{MacKey}
use si_est_a_vr.Mac.Backoff.{Draw, DcfStats}
use si_est_a_vr.Mac.Tick.{NoError}
use si_est_a_vr.Ap.State.{QueueModule}
use si_est_a_vr.Ap.Aggregate.{Radio}
use si_est_a_vr.Ap.Turn.{Served}

winners_of : Outcome NoError (List MacKey × List DcfStats) → List MacKey
winners_of (ok (winners, sts)) = winners
winners_of (err e) = []
winners_of panic = []
winners_of hang = []

module _ (radio : Radio) (r : Draw) (t_col : ℕ) where
  -- What a step of the turn gives, if it does not panic.
  abbrev Serves : ℕ → List MacKey → QueueModule → Outcome NoError QueueModule → Type 0
  Serves now winners q m = (q' : QueueModule) × (m ≡ ok q') × Served radio t_col now winners q q'

-- ===== src/Mac/Tick.antt =====
-- `tick_backoff` (models_mm1k.rs): one 9 µs slot of every station's count-down. The counts of queued
-- packets are a function of station and category, 0 for a key that the source's map lacks. The log
-- and the viewer's events are left out.
use si_est_a_vr.Common.{
  ℕ, ◌+◌, ◌-◌, Bool, false, not, ◌&&◌, List, [], ◌∷◌, ◌++◌, Option, none, some, leb, ltb, ◌==◌,
  if◌then◌else◌, Outcome, ok, panic, ◌>>=◌, lookup, insert,
}
use si_est_a_vr.Mac.Edca.{EdcaAc, MacKey, aifs}
use si_est_a_vr.Mac.Backoff.{DcfStats}
use si_est_a_vr.Mac.Medium.{Medium, is_idle, clear_if_idle}

-- There is no error but a panic.
pub data NoError : Type 0 where

-- The fields of the access point's model that a tick reads or writes.
pub record Contention : Type 0 where
  pub link_mediums : List (ℕ × Medium)
  pub dcf_values : List DcfStats
  pub active_mac_key_counts : ℕ → EdcaAc → ℕ

abbrev pub clear_all : ℕ → List (ℕ × Medium) → List (ℕ × Medium)
clear_all now [] = []
clear_all now ((link, m) ∷ ms) = (link, clear_if_idle now m) ∷ clear_all now ms

abbrev pub aifs_satisfied : ℕ → Medium → DcfStats → Bool
aifs_satisfied now m st = is_idle m now && leb (st.medium_free_since + aifs st.param) now

-- A station with packets: unfreeze after the AIFS, then count down.
unfoldable pub tick_station : ℕ → Medium → DcfStats → DcfStats
tick_station now m st =
    let frozen = if aifs_satisfied now m st then false else st.backoff_frozen in
    record st {
      backoff_frozen = frozen;
      backoff_counter =
          if is_idle m now && (not frozen && ltb 0 st.backoff_counter)
          then st.backoff_counter - 1
          else st.backoff_counter;
    }

unfoldable pub is_ready : DcfStats → Bool
is_ready st = st.backoff_counter == 0 && not st.backoff_frozen

-- `entry(link).or_insert_with(Vec::new)`.
abbrev pub keys_of : Option (List MacKey) → List MacKey
keys_of none = []
keys_of (some keys) = keys

abbrev pub ready_on : ℕ → List (ℕ × List MacKey) → List MacKey
ready_on link ready = keys_of (lookup link ready)

abbrev pub push_ready : MacKey → List (ℕ × List MacKey) → List (ℕ × List MacKey)
push_ready (sta, ac, link) ready = insert link (ready_on link ready ++ (sta, ac, link) ∷ []) ready

abbrev pub link_of : DcfStats → ℕ
link_of st = st.mac_key.2

abbrev pub is_active : (ℕ → EdcaAc → ℕ) → DcfStats → Bool
is_active counts st = not (counts st.mac_key.0 st.mac_key.1 == 0)

-- A medium that is missing is unwrapped.
unfoldable pub tick_on :
    Option Medium
    → ℕ
    → DcfStats
    → List (ℕ × List MacKey)
    → Outcome NoError (DcfStats × List (ℕ × List MacKey))
tick_on none now st ready = panic
tick_on (some m) now st ready =
    let st' = tick_station now m st in
    ok (st', (if is_ready st' then push_ready st.mac_key ready else ready))

-- The loop over the stations, with those that are ready so far.
unfoldable pub tick_stations :
    ℕ
    → List (ℕ × Medium)
    → (ℕ → EdcaAc → ℕ)
    → List DcfStats
    → List (ℕ × List MacKey)
    → Outcome NoError (List DcfStats × List (ℕ × List MacKey))
tick_stations now mediums counts [] ready = ok ([], ready)
tick_stations now mediums counts (st ∷ sts) ready = do
  (st', ready') ←
      if is_active counts st
      then tick_on (lookup (link_of st) mediums) now st ready
      else ok (st, ready)
  (sts', all_ready) ← tick_stations now mediums counts sts ready'
  ok (st' ∷ sts', all_ready)

unfoldable pub tick_backoff : ℕ → Contention → Outcome NoError (Contention × List (ℕ × List MacKey))
tick_backoff now a = do
  let mediums = clear_all now a.link_mediums
  (sts, ready) ← tick_stations now mediums a.active_mac_key_counts a.dcf_values []
  ok (record a { link_mediums = mediums; dcf_values = sts }, ready)

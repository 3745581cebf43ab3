-- ===== src/Shard/Collect.antt =====
-- The state of a frame while its shards are collected (alvr_stream_socket.rs, `StreamSocket::recv`).
use native.Mathlib.Decide.{dec_lt, ℕ_discrete}
use native.Mathlib.Nat.{mul-le-mul_right}
use si_est_a_vr.Common.{
  ℕ, ◌+◌, ◌-◌, ◌*◌, ◌≤◌, ◌<◌, max, min, ◌≡◌, refl, ap, ◌∙◌, Bool, true, ◌||◌, List, [], ◌∷◌, arith,
  ltb, ◌==◌, if_elim, length, Bytes, byte, resize, length-resize, byte-resize, ◌⊎◌, inl, inr,
}
use si_est_a_vr.Shard.Assembly.{
  InProgress, accommodate, write_shard, store_shard, contains, insert_index, contains-insert_index,
  contains-insert_index_eq,
}
use si_est_a_vr.Shard.Reassembly.{
  byte-write_shard_payload, byte-write_shard_other, length-write_shard,
}

-- Making room keeps every byte, and makes it.
pub length-accommodate :
    (start len : ℕ) (p : InProgress)
    → max p.buffer_length (start + len) ≤ length (accommodate start len p).buffer
unfolding accommodate
length-accommodate start len p =
    let needed : ℕ = max p.buffer_length (start + len) in
    if_elim (λ b. needed ≤ length b) (ltb (length p.buffer) needed) {x = resize needed p.buffer}
      {y = p.buffer} (λ _. omega (arith, length-resize needed p.buffer)) (λ e. ground arith)

byte-accommodate :
    (start len i : ℕ) (p : InProgress) → byte (accommodate start len p).buffer i ≡ byte p.buffer i
unfolding accommodate
byte-accommodate start len i p =
    let needed : ℕ = max p.buffer_length (start + len) in
    if_elim (λ b. byte b i ≡ byte p.buffer i) (ltb (length p.buffer) needed)
      (λ e. byte-resize needed p.buffer i (ground arith)) (λ _. refl)

received_or :
    (later here before : Bool) {after : Bool}
    → after ≡ (here || before)
    → ((here || later) ≡ true) ⊎ (before ≡ true)
    → (later ≡ true) ⊎ (after ≡ true)
received_or later here before e m = ground arith

-- The shards of a list of indices, stored one after the other.
abbrev pub store_all : ℕ → (ℕ → Bytes) → List ℕ → InProgress → InProgress
store_all max_packet_size shard [] p = p
store_all max_packet_size shard (k ∷ ks) p =
    store_all max_packet_size shard ks (store_shard max_packet_size k (shard k) p)

module _ (max_packet_size actual : ℕ) (bytes : Bytes) (room : 22 < max_packet_size)
    (some_data : 22 < actual) where
  abbrev pub step : ℕ
  step = max_packet_size - 22

  -- How many bytes shard `idx` has.
  abbrev pub size_of : ℕ → ℕ
  size_of idx = min max_packet_size (actual - idx * step)

  pub record IsShard (idx : ℕ) (shard : Bytes) : Type 0 where
    pub inside : idx * step + 22 < actual
    pub sized : length shard ≡ size_of idx
    pub carries : (i : ℕ) → 22 ≤ i → i < size_of idx → byte shard i ≡ byte bytes (idx * step + i)

  -- The shards that are marked as received lie in the buffer.
  pub record Holds (p : InProgress) : Type 0 where
    pub not_longer : p.buffer_length ≤ actual
    pub long_enough : p.buffer_length ≤ length p.buffer
    pub payload :
        (idx i : ℕ)
        → contains idx p.received_shard_indices ≡ true
        → 22 ≤ i
        → i < size_of idx
        → byte p.buffer (idx * step + i) ≡ byte bytes (idx * step + i)
    pub reaches :
        (idx : ℕ)
        → contains idx p.received_shard_indices ≡ true
        → idx * step + size_of idx ≤ p.buffer_length

  -- Two shards' payloads do not meet.
  apart :
      (k idx i : ℕ)
      → (idx ≡ k → ⊥)
      → 22 ≤ i
      → i < size_of idx
      → (idx * step + i < k * step + 22) ⊎ (k * step + size_of k ≤ idx * step + i)
  apart k idx i ne h j = elim (dec_lt idx k) [
    | yes p ↦ inl (omega (arith, mul-le-mul_right step p))
    | no p ↦ let above : k < idx = omega arith in inr (omega (arith, mul-le-mul_right step above))
  ]

  store_shard-Holds :
      (k : ℕ) (shard : Bytes) (p : InProgress)
      → IsShard k shard
      → Holds p
      → Holds (store_shard max_packet_size k shard p)
  unfolding store_shard accommodate
  store_shard-Holds k shard p s h = record {
    not_longer = omega (arith, h.not_longer, s.sized, s.inside);
    long_enough = omega (
      arith,
      length-accommodate start (length shard) p,
      length-write_shard roomy.buffer shard start fits full,
    );
    payload = λ idx i mem low high. kept idx i mem low high;
    reaches = λ idx mem. elim (contains-insert_index idx k p.received_shard_indices mem) [
      | inl e ↦ rw e (omega (arith, s.sized))
      | inr old ↦ omega (arith, h.reaches idx old)
    ];
  }
    where
      start : ℕ
      start = k * step

      roomy : InProgress
      roomy = accommodate start (length shard) p

      fits : start + length shard ≤ length roomy.buffer
      fits = omega (arith, length-accommodate start (length shard) p)

      full : 22 ≤ length shard
      full = omega (arith, s.sized, s.inside)

      old_of :
          {idx : ℕ}
          → (idx ≡ k → ⊥)
          → contains idx (insert_index k p.received_shard_indices) ≡ true
          → contains idx p.received_shard_indices ≡ true
      old_of {idx} ne mem = elim (contains-insert_index idx k p.received_shard_indices mem) [
        | inl e ↦ absurd (ne e)
        | inr old ↦ old
      ]

      kept :
          (idx i : ℕ)
          → contains idx (insert_index k p.received_shard_indices) ≡ true
          → 22 ≤ i
          → i < size_of idx
          → byte (write_shard start shard roomy.buffer) (idx * step + i)
            ≡ byte bytes (idx * step + i)
      kept idx i mem low high = elim (ℕ_discrete idx k) [
        | yes e ↦ rw e (
            byte-write_shard_payload roomy.buffer shard start fits full i low
              (omega (arith, rw e at high, s.sized))
            ∙ s.carries i low (rw e at high))
        | no ne ↦
            byte-write_shard_other roomy.buffer shard start fits full (idx * step + i)
              (elim (apart k idx i ne low high) [
                | inl a ↦ inl a
                | inr b ↦ inr (omega (arith, s.sized, b))
              ])
            ∙ byte-accommodate start (length shard) (idx * step + i) p
            ∙ h.payload idx i (old_of ne mem) low high
      ]

  pub store_all-Holds :
      (shard : ℕ → Bytes) (ks : List ℕ) (p : InProgress)
      → ((k : ℕ) → contains k ks ≡ true → IsShard k (shard k))
      → Holds p
      → Holds (store_all max_packet_size shard ks p)
  store_all-Holds shard [] p s h = h
  store_all-Holds shard (k ∷ ks) p s h =
      store_all-Holds shard ks (store_shard max_packet_size k (shard k) p)
        (λ i m. s i (ground arith)) (store_shard-Holds k (shard k) p (s k (ground arith)) h)

  store_shard-received :
      (k : ℕ) (shard : Bytes) (p : InProgress)
      → (store_shard max_packet_size k shard p).received_shard_indices
        ≡ insert_index k p.received_shard_indices
  unfolding store_shard
  store_shard-received k shard p = refl

  pub store_all-received :
      (shard : ℕ → Bytes) (ks : List ℕ) (p : InProgress) (i : ℕ)
      → (contains i ks ≡ true) ⊎ (contains i p.received_shard_indices ≡ true)
      → contains i (store_all max_packet_size shard ks p).received_shard_indices ≡ true
  store_all-received shard [] p i (inl m) = cc
  store_all-received shard [] p i (inr m) = m
  store_all-received shard (k ∷ ks) p i m =
      store_all-received shard ks (store_shard max_packet_size k (shard k) p) i (
        received_or (contains i ks) (i == k) (contains i p.received_shard_indices)
          (ap (contains i) (store_shard-received k (shard k) p)
            ∙ contains-insert_index_eq i k p.received_shard_indices)
          m)

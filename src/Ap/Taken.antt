-- ===== src/Ap/Taken.antt =====
-- What the aggregation loop takes (models_mm1k.rs, `build_new_ampdu`).
use si_est_a_vr.Common.{
  ℕ, ◌+◌, ◌≤◌, ◌<◌, map, if◌then◌else◌, ◌==◌, ◌≡◌, refl, ap, take, ◌⊎◌, Bool, true, false, not,
  ◌&&◌, Option, none, some, List, [], ◌∷◌, ◌++◌, length, arith,
}
use si_est_a_vr.Mac.Edca.{EdcaAc, MacKey}
use si_est_a_vr.Ap.Packets.{MpduPacket}
use si_est_a_vr.Ap.State.{Deques, deque_at}
use si_est_a_vr.Ap.Aggregate.{Radio}
use si_est_a_vr.Ap.Build.{has_key}
use si_est_a_vr.Ap.Parts.{PartOf}

-- What no step of the build changes in a packet: its id, source, destination, category, length, time
-- of arrival, coordinates, header and assigned link.
abbrev pub Ident : Type 0
Ident = ℕ × ℕ × ℕ × EdcaAc × ℕ × ℕ × ℕ × ℕ × Option ℕ

abbrev pub ident : MpduPacket → Ident
ident p = (
  p.packet_id, p.sta_src_id, p.sta_dest_id, p.edca_ac, p.length_packet_bits, p.queue_in_instant,
  p.sta_src_coords, p.header_alvr, p.assigned_link_id,
)

abbrev pub idents : List MpduPacket → List Ident
idents [] = []
idents (p ∷ ps) = ident p ∷ idents ps

abbrev pub tagged : MacKey → List MpduPacket → List (MacKey × MpduPacket)
tagged key [] = []
tagged key (p ∷ ps) = (key, p) ∷ tagged key ps

abbrev pub idents_of : List (MacKey × MpduPacket) → List Ident
idents_of [] = []
idents_of ((key, p) ∷ ps) = ident p ∷ idents_of ps

abbrev pub idents_at : Option (List MpduPacket) → List Ident
idents_at none = []
idents_at (some d) = idents d

-- All that waits in some queues.
abbrev pub idents_in : List MacKey → Deques → List Ident
idents_in [] ds = []
idents_in (key ∷ keys) ds = idents_at (deque_at key ds) ++ idents_in keys ds

abbrev pub sum_taken : List (MacKey × ℕ) → ℕ
sum_taken [] = 0
sum_taken ((key, n) ∷ sources) = n + sum_taken sources

-- The sources are some of the keys in their order, each with no more than its queue holds.
pub data Popped (ds : Deques) : List MacKey → List (MacKey × ℕ) → Type 0 where
  none_popped : (keys : List MacKey) → Popped ds keys []
  popped :
      (key : MacKey) (keys : List MacKey) (d : List MpduPacket) (n : ℕ)
      (sources : List (MacKey × ℕ))
      → deque_at key ds ≡ some d
      → n ≤ length d
      → Popped ds keys sources
      → Popped ds (key ∷ keys) ((key, n) ∷ sources)
  passed :
      (key : MacKey) (keys : List MacKey) (sources : List (MacKey × ℕ))
      → Popped ds keys sources
      → Popped ds (key ∷ keys) sources

-- The packets are the first ones of the queues of the sources, as many as these say.
pub data Fronted (ds : Deques) : List MacKey → List (MacKey × ℕ) → List Ident → Type 0 where
  none_fronted : (keys : List MacKey) → Fronted ds keys [] []
  fronted :
      (key : MacKey) (keys : List MacKey) (d : List MpduPacket) (n : ℕ)
      (sources : List (MacKey × ℕ)) (is : List Ident)
      → deque_at key ds ≡ some d
      → Fronted ds keys sources is
      → Fronted ds (key ∷ keys) ((key, n) ∷ sources) (idents (take n d) ++ is)
  missed :
      (key : MacKey) (keys : List MacKey) (sources : List (MacKey × ℕ)) (is : List Ident)
      → Fronted ds keys sources is
      → Fronted ds (key ∷ keys) sources is

-- Every packet is from one of the queues.
abbrev pub FromKeys : List MacKey → List (MacKey × MpduPacket) → Type 0
FromKeys keys [] = Unit
FromKeys keys ((key, p) ∷ ps) = (has_key key keys ≡ true) × FromKeys keys ps

abbrev pub Present : List MacKey → Deques → Type 0
Present [] ds = Unit
Present (key ∷ keys) ds = ((d : List MpduPacket) × (deque_at key ds ≡ some d)) × Present keys ds

-- What was taken stands queue by queue, each queue's part in its order.
pub data Grouped (ds : Deques) : List MacKey → List (MacKey × MpduPacket) → Type 0 where
  none_grouped : (keys : List MacKey) → Grouped ds keys []
  group :
      (key : MacKey) (keys : List MacKey) (d new : List MpduPacket)
      (others : List (MacKey × MpduPacket))
      → deque_at key ds ≡ some d
      → PartOf (idents new) (idents d)
      → Grouped ds keys others
      → Grouped ds (key ∷ keys) (tagged key new ++ others)

-- Every packet is for one destination.
abbrev pub Aimed : ℕ → List Ident → Type 0
Aimed dest [] = Unit
Aimed dest (i ∷ is) = ((i.2 == dest) ≡ true) × Aimed dest is

-- The packets for one destination.
abbrev pub for_dest : ℕ → List Ident → List Ident
for_dest dest [] = []
for_dest dest (i ∷ is) = let rest = for_dest dest is in if i.2 == dest then i ∷ rest else rest

-- Upwards every packet of the queues may be taken, downwards those for the destination.
abbrev pub eligible : Bool → ℕ → List Ident → List Ident
eligible true dest is = is
eligible false dest is = for_dest dest is

-- There is no room for one packet more, or some airtime of one more reaches a limit.
abbrev pub Limited : Radio → ℕ → ℕ → Type 0
Limited radio most n =
    (most < n + 1)
    ⊎ ((lengths : List ℕ) × (from to width txop : ℕ) × (length lengths ≡ n + 1)
        × (radio.at_limit (radio.airtime lengths from to width).0 txop ≡ true))

pub eligible-keep :
    (up : Bool) (dest : ℕ) (i : Ident) (is js : List Ident)
    → (not up && not (i.2 == dest)) ≡ false
    → js ≡ eligible up dest is
    → i ∷ js ≡ eligible up dest (i ∷ is)
eligible-keep true dest i is js ours same = ap (◌∷◌ i) same
eligible-keep false dest i is js ours same =
    let here : (i.2 == dest) ≡ true = ground (arith, ours) in rw here (ap (◌∷◌ i) same)

pub eligible-skip :
    (up : Bool) (dest : ℕ) (i : Ident) (is : List Ident)
    → (not up && not (i.2 == dest)) ≡ true
    → eligible up dest is ≡ eligible up dest (i ∷ is)
eligible-skip true dest i is others = absurd (ground (arith, others))
eligible-skip false dest i is others =
    let apart : (i.2 == dest) ≡ false = ground (arith, others) in rw apart refl

pub eligible-none : (up : Bool) (dest : ℕ) → [] ≡ eligible up dest []
eligible-none true dest = refl
eligible-none false dest = refl

pub length-lengths :
    (ps : List (MacKey × MpduPacket)) (n : ℕ)
    → length (map (λ (k, x). x.length_packet_bits) ps ++ n ∷ []) ≡ length ps + 1
length-lengths [] n = refl
length-lengths ((key, p) ∷ ps) n = omega (arith, length-lengths ps n)

-- ===== src/State/Timestamps.antt =====
-- The order of timestamps in src/sync/state.rs.
use harmonic.Prelude.{Bool, true, false, ◌≡◌, ap₂, arith}
use harmonic.Prelude.Int.{ℤ, pos, negsuc, ltb_ℤ}
use harmonic.Proto.{Timestamp}
use harmonic.State.{proto_timestamp_gt}

ltb_ℤ-irrefl : (a : ℤ) → ltb_ℤ a a ≡ false
ltb_ℤ-irrefl a = ground arith

ltb_ℤ-trichotomy : (a b : ℤ) → ltb_ℤ a b ≡ false → ltb_ℤ b a ≡ false → a ≡ b
ltb_ℤ-trichotomy (pos a) (pos b) p q = ground arith
ltb_ℤ-trichotomy (pos a) (negsuc b) p q = ground arith
ltb_ℤ-trichotomy (negsuc a) (pos b) p q = ground arith
ltb_ℤ-trichotomy (negsuc a) (negsuc b) p q = ground arith

ltb_ℤ-trans : (a b c : ℤ) → ltb_ℤ a b ≡ true → ltb_ℤ b c ≡ true → ltb_ℤ a c ≡ true
ltb_ℤ-trans a b c p q = ground arith

-- No timestamp is newer than itself.
pub gt_irrefl : (a : Timestamp) → proto_timestamp_gt a a ≡ false
unfolding proto_timestamp_gt
gt_irrefl a = ground (arith, ltb_ℤ-irrefl a.seconds, ltb_ℤ-irrefl a.nanos)

pub gt_asym : (a b : Timestamp) → proto_timestamp_gt a b ≡ true → proto_timestamp_gt b a ≡ false
unfolding proto_timestamp_gt
gt_asym a b p = ground arith

pub gt_trans :
    (a b c : Timestamp)
    → proto_timestamp_gt a b ≡ true
    → proto_timestamp_gt b c ≡ true
    → proto_timestamp_gt a c ≡ true
unfolding proto_timestamp_gt
gt_trans a b c p q = ground arith

pub gt_trichotomy :
    (a b : Timestamp) → proto_timestamp_gt a b ≡ false → proto_timestamp_gt b a ≡ false → a ≡ b
unfolding proto_timestamp_gt
gt_trichotomy a b p q =
    ap₂ (λ s n. record { seconds = s; nanos = n })
      (ltb_ℤ-trichotomy a.seconds b.seconds (ground arith) (ground arith))
      (ltb_ℤ-trichotomy a.nanos b.nanos (ground arith) (ground arith))

-- A strict total order on timestamps, as a test.
record IsStrictOrder (gt : Timestamp → Timestamp → Bool) : Type 0 where
  irreflexive : (a : Timestamp) → gt a a ≡ false
  asymmetric : (a b : Timestamp) → gt a b ≡ true → gt b a ≡ false
  transitive : (a b c : Timestamp) → gt a b ≡ true → gt b c ≡ true → gt a c ≡ true
  total : (a b : Timestamp) → gt a b ≡ false → gt b a ≡ false → a ≡ b

-- ===== src/Api/Quantity/Bounds.antt =====
-- A quantity that converts to bytes fits in a u64.
use kubimo.Common.{ℕ, ◌^◌, ◌<◌, ◌≡◌, some, and_then_parts, arith}
use kubimo.Api.Quantity.{Float64, StorageQuantity, magnitude, in_range, multiplier, to_bytes}

module _ (fl : Float64) where
  in_range-lt : (x : fl.F) (n : ℕ) → in_range fl x ≡ some n → n < 2 ^ 64
  unfolding in_range
  in_range-lt x n h = ground (arith, fl.to_u64_fits x)

  pub to_bytes-lt : (q : StorageQuantity) (n : ℕ) → to_bytes fl q ≡ some n → n < 2 ^ 64
  unfolding to_bytes
  to_bytes-lt q n h =
      let (m, _, e) = and_then_parts (magnitude fl (fl.trim q.quantity)) _ h in
      in_range-lt (fl.times m.0 (fl.of_u64 (multiplier m.1))) n e

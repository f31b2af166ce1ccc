-- ===== src/Pruning/Buckets.antt =====
-- partition_pruning.go: the bucket of a value in a range, in the wrapping arithmetic of int64.
use loca_ql.Prelude.{ℕ, suc, ◌+◌, ◌-◌, ◌*◌, ◌/◌, ◌^◌, ◌≤◌, ◌<◌, ◌≡◌, ap, true, arith}
use loca_ql.Prelude.Int.{
  ℤ, pos, negsuc, pos_part, neg_part, ◌+ℤ◌, ◌-ℤ◌, ◌≤ℤ◌, wrap64, min_int64, max_int64, IsInt64,
}
use native.Mathlib.Nat.{div-mul-le_self, lt-div-mul-add}
use loca_ql.Tables.Types.{RangePartitioning}
use loca_ql.Tables.Partitions.{bucket, in_range}

-- An int64 is its own wrap-around.
wrap64-IsInt64 : (a : ℤ) → IsInt64 a → wrap64 a ≡ a
unfolding wrap64
wrap64-IsInt64 (pos n) h = ground arith
wrap64-IsInt64 (negsuc n) h = ground arith

-- A difference of ordered integers is a number.
sub_ℤ : (a b : ℤ) → a ≤ℤ b → (n : ℕ) × (b -ℤ a ≡ pos n) × (a +ℤ pos n ≡ b)
unfolding ◌-ℤ◌ ◌+ℤ◌
sub_ℤ (pos a) (pos b) h = (b - a, ground arith, ground arith)
sub_ℤ (pos a) (negsuc b) h = absurd (omega arith)
sub_ℤ (negsuc a) (pos b) h = (suc a + b, ground arith, ground arith)
sub_ℤ (negsuc a) (negsuc b) h = (a - b, ground arith, ground arith)

add_pos-le : (a : ℤ) (m n : ℕ) → m ≤ n → a +ℤ pos m ≤ℤ a +ℤ pos n
unfolding ◌+ℤ◌
add_pos-le (pos a) m n h = ground arith
add_pos-le (negsuc a) m n h = ground arith

add_pos-add : (a : ℤ) (m n : ℕ) → (a +ℤ pos m) +ℤ pos n ≡ a +ℤ pos (m + n)
unfolding ◌+ℤ◌
add_pos-add (pos a) m n = ground arith
add_pos-add (negsuc a) m n = ground arith

add_pos-low : (a : ℤ) (m : ℕ) → a ≤ℤ a +ℤ pos m
unfolding ◌+ℤ◌
add_pos-low (pos a) m = ground arith
add_pos-low (negsuc a) m = ground arith

le_trans : (a b c : ℤ) → a ≤ℤ b → b ≤ℤ c → a ≤ℤ c
le_trans a b c h k = omega arith

bucket-at :
    (config : RangePartitioning) (v : ℤ) (n : ℕ)
    → v -ℤ config.start ≡ pos n
    → IsInt64 (pos n)
    → IsInt64 (pos (n / config.interval * config.interval))
    → IsInt64 (config.start +ℤ pos (n / config.interval * config.interval))
    → bucket config v ≡ config.start +ℤ pos (n / config.interval * config.interval)
unfolding bucket
bucket-at config v n e small multiple sum =
    rw
      (
        e,
        wrap64-IsInt64 (pos n) small,
        wrap64-IsInt64 (pos (n / config.interval * config.interval)) multiple,
      )
      (wrap64-IsInt64 (config.start +ℤ pos (n / config.interval * config.interval)) sum)

in_range-le :
    (config : RangePartitioning) (v : ℤ)
    → in_range config v ≡ true
    → (config.start ≤ℤ v) × (v ≤ℤ config.end)
unfolding in_range
in_range-le config (pos v) h = (ground arith, ground arith)
in_range-le config (negsuc v) h = (ground arith, ground arith)

parts-sub :
    (a b : ℤ)
    → pos_part (b -ℤ a) + (neg_part b + pos_part a) ≡ neg_part (b -ℤ a) + (pos_part b + neg_part a)
unfolding ◌-ℤ◌
parts-sub a b = ground arith

sub-le : (a b v : ℤ) (n : ℕ) → v -ℤ a ≡ pos n → v ≤ℤ b → b -ℤ a ≤ℤ max_int64 → n ≤ 2 ^ 63 - 1
sub-le a b v n e h k = omega (arith, parts-sub a b, parts-sub a v, ap pos_part e, ap neg_part e)

-- No operation overflows where the range has at most 2 ^ 63 - 1 values.
pub bucket-le :
    (config : RangePartitioning) (v : ℤ)
    → IsInt64 config.start
    → IsInt64 config.end
    → 0 < config.interval
    → config.end -ℤ config.start ≤ℤ max_int64
    → in_range config v ≡ true
    → (config.start ≤ℤ bucket config v)
      × (bucket config v ≤ℤ v)
      × (v +ℤ pos 1 ≤ℤ bucket config v +ℤ pos config.interval)
bucket-le config v start_ok end_ok positive narrow inside =
    let k = config.interval in
    let order : (config.start ≤ℤ v) × (v ≤ℤ config.end) = in_range-le config v inside in
    let (n, diff, back) = sub_ℤ config.start v order.0 in
    let m = n / k * k in
    let below : m ≤ n = div-mul-le_self n k in
    let above : n < m + k = lt-div-mul-add positive in
    let n_small : n ≤ 2 ^ 63 - 1 = sub-le config.start config.end v n diff order.1 narrow in
    let low : config.start ≤ℤ config.start +ℤ pos m = add_pos-low config.start m in
    let high : config.start +ℤ pos m ≤ℤ v = bounded_high config.start v m n below back in
    let at : bucket config v ≡ config.start +ℤ pos m =
      bucket-at config v n diff (is_small n n_small) (is_small m (omega arith)) (
        le_trans min_int64 config.start (config.start +ℤ pos m) start_ok.0 low,
        le_trans (config.start +ℤ pos m) v max_int64 high
            (le_trans v config.end max_int64 order.1 end_ok.1),
      ) in
    rw at (low, high, next config.start v m n k above back)
  where
    bounded_high : (a v : ℤ) (m n : ℕ) → m ≤ n → a +ℤ pos n ≡ v → a +ℤ pos m ≤ℤ v
    bounded_high a v m n h e = rw (← e) (add_pos-le a m n h)

    is_small : (n : ℕ) → n ≤ 2 ^ 63 - 1 → IsInt64 (pos n)
    is_small n h = (omega arith, omega arith)

    next : (a v : ℤ) (m n k : ℕ) → n < m + k → a +ℤ pos n ≡ v → v +ℤ pos 1 ≤ℤ (a +ℤ pos m) +ℤ pos k
    next a v m n k h e =
        rw (← e, add_pos-add a n 1, add_pos-add a m k) (add_pos-le a (n + 1) (m + k) (omega arith))

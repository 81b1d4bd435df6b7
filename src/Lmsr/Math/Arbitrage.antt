-- ===== src/Lmsr/Math/Arbitrage.antt =====
-- Quotes over several transitions: round trips and split purchases.
use deadcat.Prelude.{ℕ, ◌+◌, ◌-◌, ◌*◌, ◌<◌, ◌≤◌, ◌≡◌, Bool, true, false, ok, arith, abs_diff}
use deadcat.Lmsr.Math.{
  fee_denom, LmsrTradeKind, LmsrQuote, min_collateral_in, max_collateral_out, quote_from_table,
  buy_yes, sell_yes, buy_no, sell_no, is_buy, requires_increasing_index,
}
use deadcat.Lmsr.Math.Fees.{
  min_collateral_in_iff, max_collateral_out_iff, quote_from_table-IsQuote, IsQuote, IsDirected,
}

-- The sale that undoes a purchase.
abbrev pub opposite : LmsrTradeKind → LmsrTradeKind
opposite buy_yes = sell_yes
opposite sell_yes = buy_yes
opposite buy_no = sell_no
opposite sell_no = buy_no

fee-lt : (base fee c : ℕ) → min_collateral_in base fee ≡ ok c → fee < fee_denom
unfolding min_collateral_in
fee-lt base fee c h = ground arith

mul_mono : (b x y : ℕ) → x ≤ y → b * x ≤ b * y
mul_mono b x y h = grind arith

cut-le : (base fee : ℕ) → base * (fee_denom - fee) ≤ base * fee_denom
cut-le base fee = mul_mono base (fee_denom - fee) fee_denom (omega arith)

le-min_collateral_in : (base fee c : ℕ) → min_collateral_in base fee ≡ ok c → base ≤ c
le-min_collateral_in base fee c h =
    omega (arith, (min_collateral_in_iff base fee c c h).0 (omega arith), cut-le c fee)

max_collateral_out-le : (base fee c : ℕ) → max_collateral_out base fee ≡ ok c → c ≤ base
max_collateral_out-le base fee c h =
    omega (arith, (max_collateral_out_iff base fee c c h).0 (omega arith), cut-le base fee)

abs_diff_comm : (a b : ℕ) → abs_diff a b ≡ abs_diff b a
unfolding abs_diff
abs_diff_comm a b = ground arith

round_trip :
    (kind : LmsrTradeKind) {i j fi fj step half fee : ℕ} {q r : LmsrQuote}
    → is_buy kind ≡ true
    → IsQuote kind i j fi fj step half fee q
    → IsQuote (opposite kind) j i fj fi step half fee r
    → (r.traded_lots ≡ q.traded_lots)
      × (r.base_notional ≡ q.base_notional)
      × (r.collateral_amount ≤ q.collateral_amount)
unfolding is_buy
round_trip buy_yes {i} {j} {fi} {fj} {step} {half} {fee} {q} {r} b hq hr = ground (
  arith,
  abs_diff_comm i j,
  le-min_collateral_in q.base_notional fee q.collateral_amount,
  max_collateral_out-le r.base_notional fee r.collateral_amount,
)
round_trip buy_no {i} {j} {fi} {fj} {step} {half} {fee} {q} {r} b hq hr = ground (
  arith,
  abs_diff_comm i j,
  le-min_collateral_in q.base_notional fee q.collateral_amount,
  max_collateral_out-le r.base_notional fee r.collateral_amount,
)
round_trip sell_yes b hq hr = cc
round_trip sell_no b hq hr = cc

-- Selling back what was just bought, from the index that the purchase led to, trades the same lots
-- at the same base notional and pays out no more collateral than the purchase took, where both
-- quotes succeed.
pub quote_round_trip :
    (kind : LmsrTradeKind) (i j fi fj step half fee : ℕ) {q r : LmsrQuote}
    → is_buy kind ≡ true
    → quote_from_table kind i j fi fj step half fee ≡ ok q
    → quote_from_table (opposite kind) j i fj fi step half fee ≡ ok r
    → (r.traded_lots ≡ q.traded_lots)
      × (r.base_notional ≡ q.base_notional)
      × (r.collateral_amount ≤ q.collateral_amount)
quote_round_trip kind i j fi fj step half fee b hq hr =
    round_trip kind b (quote_from_table-IsQuote kind i j fi fj step half fee hq)
      (quote_from_table-IsQuote (opposite kind) j i fj fi step half fee hr)

lots_split :
    (up : Bool) (i j k : ℕ)
    → IsDirected up i j
    → IsDirected up j k
    → abs_diff i k ≡ abs_diff i j + abs_diff j k
unfolding abs_diff
lots_split true i j k p q = ground arith
lots_split false i j k p q = ground arith

scale_split :
    (a b c step half : ℕ)
    → c ≡ a + b
    → (c * step ≡ a * step + b * step) × (c * step * half ≡ a * step * half + b * step * half)
scale_split a b c step half h = rw h (omega arith, omega arith)

-- With the base costs adding up, the least collateral for the whole is at most the sum.
collateral_split :
    (a b c fee x y z : ℕ)
    → c ≡ a + b
    → min_collateral_in a fee ≡ ok x
    → min_collateral_in b fee ≡ ok y
    → min_collateral_in c fee ≡ ok z
    → z ≤ x + y
collateral_split a b c fee x y z e ha hb hc = (min_collateral_in_iff c fee z (x + y) hc).1 (
    omega (
      arith,
      (min_collateral_in_iff a fee x x ha).0 (omega arith),
      (min_collateral_in_iff b fee y y hb).0 (omega arith),
    ))

split :
    (kind : LmsrTradeKind) {i j k fi fj fk step half fee : ℕ} {q r s : LmsrQuote}
    → is_buy kind ≡ true
    → IsQuote kind i j fi fj step half fee q
    → IsQuote kind j k fj fk step half fee r
    → IsQuote kind i k fi fk step half fee s
    → (s.traded_lots ≡ q.traded_lots + r.traded_lots)
      × (s.base_notional ≡ q.base_notional + r.base_notional)
      × (s.collateral_amount ≤ q.collateral_amount + r.collateral_amount)
unfolding is_buy requires_increasing_index
split buy_yes {i} {j} {k} {step = step} {half = half} {fee = fee} {q} {r} {s} b hq hr hs =
    let d = lots_split true i j k hq.directed hr.directed in
    let m = scale_split (abs_diff i j) (abs_diff j k) (abs_diff i k) step half d in
    ground (
      arith,
      m,
      collateral_split q.base_notional r.base_notional s.base_notional fee q.collateral_amount
          r.collateral_amount s.collateral_amount,
    )
split buy_no {i} {j} {k} {step = step} {half = half} {fee = fee} {q} {r} {s} b hq hr hs =
    let d = lots_split false i j k hq.directed hr.directed in
    let m = scale_split (abs_diff i j) (abs_diff j k) (abs_diff i k) step half d in
    ground (
      arith,
      m,
      collateral_split q.base_notional r.base_notional s.base_notional fee q.collateral_amount
          r.collateral_amount s.collateral_amount,
    )
split sell_yes b hq hr hs = cc
split sell_no b hq hr hs = cc

-- A purchase in two steps buys the same lots at the same base notional as the purchase in one step
-- and never costs less collateral, where the three quotes succeed.
pub quote_split :
    (kind : LmsrTradeKind) (i j k fi fj fk step half fee : ℕ) {q r s : LmsrQuote}
    → is_buy kind ≡ true
    → quote_from_table kind i j fi fj step half fee ≡ ok q
    → quote_from_table kind j k fj fk step half fee ≡ ok r
    → quote_from_table kind i k fi fk step half fee ≡ ok s
    → (s.traded_lots ≡ q.traded_lots + r.traded_lots)
      × (s.base_notional ≡ q.base_notional + r.base_notional)
      × (s.collateral_amount ≤ q.collateral_amount + r.collateral_amount)
quote_split kind i j k fi fj fk step half fee b hq hr hs =
    split kind b (quote_from_table-IsQuote kind i j fi fj step half fee hq)
      (quote_from_table-IsQuote kind j k fj fk step half fee hr)
      (quote_from_table-IsQuote kind i k fi fk step half fee hs)

-- ===== src/Error.antt =====
-- error.rs: the errors that the modelled code returns. A message is its fixed text: the numbers and
-- identifiers that the source formats into it are left out.
use deadcat.Prelude.{String}

pub data Error : Type 0 where
  insufficient_collateral invalid_state collateral_overflow missing_reissuance_utxos : Error
  insufficient_fee fill_below_minimum remainder_below_minimum zero_order_amount zero_price : Error
  conservation_violation partial_fill_not_last maker_order_overflow : Error
  missing_change_destination no_liquidity : Error
  pset blinding lmsr_pool trade_routing : String → Error

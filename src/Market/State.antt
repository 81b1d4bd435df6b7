-- ===== src/Market/State.antt =====
-- prediction_market/state.rs: the five lifecycle states, the eight covenant slots, and the
-- derivation of the state from the set of live slots.
pub mod Derive
use deadcat.Prelude.{
  ℕ, zero, suc, ◌≡◌, refl, ◌↔◌, ◌⊎◌, inl, inr, Bool, true, false, not, ◌||◌, Option, none, some,
  List, [], ◌∷◌, arith, ◌==◌, if◌then◌else◌, all, any, set, get_or, Result, ok, err,
}

pub data MarketState : Type 0 where
  dormant unresolved resolved_yes resolved_no expired : MarketState

pub data MarketSlot : Type 0 where
  dormant_yes_rt dormant_no_rt unresolved_yes_rt unresolved_no_rt : MarketSlot
  unresolved_collateral resolved_yes_collateral : MarketSlot
  resolved_no_collateral expired_collateral : MarketSlot

-- `MarketSlot::ALL`, `DORMANT` and `UNRESOLVED`
abbrev pub all_slots : List MarketSlot
all_slots =
    dormant_yes_rt ∷ dormant_no_rt ∷ unresolved_yes_rt ∷ unresolved_no_rt ∷ unresolved_collateral
    ∷ resolved_yes_collateral ∷ resolved_no_collateral ∷ expired_collateral ∷ []

abbrev pub dormant_slots : List MarketSlot
dormant_slots = dormant_yes_rt ∷ dormant_no_rt ∷ []

abbrev pub unresolved_slots : List MarketSlot
unresolved_slots = unresolved_yes_rt ∷ unresolved_no_rt ∷ unresolved_collateral ∷ []

unfoldable pub as_u8 : MarketSlot → ℕ
as_u8 dormant_yes_rt = 0
as_u8 dormant_no_rt = 1
as_u8 unresolved_yes_rt = 2
as_u8 unresolved_no_rt = 3
as_u8 unresolved_collateral = 4
as_u8 resolved_yes_collateral = 5
as_u8 resolved_no_collateral = 6
as_u8 expired_collateral = 7

unfoldable pub slot_from_u8 : ℕ → Option MarketSlot
slot_from_u8 v =
    if v == 0
    then some dormant_yes_rt
    else if v == 1
    then some dormant_no_rt
    else if v == 2
    then some unresolved_yes_rt
    else if v == 3
    then some unresolved_no_rt
    else if v == 4
    then some unresolved_collateral
    else if v == 5
    then some resolved_yes_collateral
    else if v == 6
    then some resolved_no_collateral
    else if v == 7
    then some expired_collateral
    else none

-- The derived `PartialEq` compares the discriminants.
unfoldable pub slot_eq : MarketSlot → MarketSlot → Bool
unfolding as_u8
slot_eq a b = as_u8 a == as_u8 b

unfoldable pub contains : List MarketSlot → MarketSlot → Bool
unfolding slot_eq any
contains slots k = any (slot_eq k) slots

-- `MarketSlot::state`
unfoldable pub state : MarketSlot → MarketState
state dormant_yes_rt = dormant
state dormant_no_rt = dormant
state unresolved_yes_rt = unresolved
state unresolved_no_rt = unresolved
state unresolved_collateral = unresolved
state resolved_yes_collateral = resolved_yes
state resolved_no_collateral = resolved_no
state expired_collateral = expired

unfoldable pub is_yes_reissuance : MarketSlot → Bool
is_yes_reissuance dormant_yes_rt = true
is_yes_reissuance unresolved_yes_rt = true
is_yes_reissuance _ = false

unfoldable pub is_no_reissuance : MarketSlot → Bool
is_no_reissuance dormant_no_rt = true
is_no_reissuance unresolved_no_rt = true
is_no_reissuance _ = false

unfoldable pub is_reissuance : MarketSlot → Bool
unfolding is_yes_reissuance is_no_reissuance
is_reissuance k = is_yes_reissuance k || is_no_reissuance k

unfoldable pub is_collateral : MarketSlot → Bool
unfolding is_reissuance
is_collateral k = not (is_reissuance k)

unfoldable pub collateral_slot_for_state : MarketState → Option MarketSlot
collateral_slot_for_state dormant = none
collateral_slot_for_state unresolved = some unresolved_collateral
collateral_slot_for_state resolved_yes = some resolved_yes_collateral
collateral_slot_for_state resolved_no = some resolved_no_collateral
collateral_slot_for_state expired = some expired_collateral

unfoldable pub live_slots_for_state : MarketState → List MarketSlot
live_slots_for_state dormant = dormant_slots
live_slots_for_state unresolved = unresolved_slots
live_slots_for_state resolved_yes = resolved_yes_collateral ∷ []
live_slots_for_state resolved_no = resolved_no_collateral ∷ []
live_slots_for_state expired = expired_collateral ∷ []

-- `[false; 8]`
abbrev pub no_slot : List Bool
no_slot = false ∷ false ∷ false ∷ false ∷ false ∷ false ∷ false ∷ false ∷ []

-- `for slot in slots { present[slot.as_u8() as usize] = true; }`
unfoldable pub mark_present : List MarketSlot → List Bool → List Bool
mark_present [] present = present
mark_present (k ∷ slots) present = mark_present slots (set present (as_u8 k) true)

abbrev pub bool_eq : Bool → Bool → Bool
bool_eq true b = b
bool_eq false b = not b

unfoldable pub is_exact : List Bool → List MarketSlot → Bool
unfolding all as_u8 contains
is_exact present expected =
    all (λ k. bool_eq (get_or present (as_u8 k) false) (contains expected k)) all_slots

unfoldable pub present_slots : List Bool → List MarketSlot → List MarketSlot
unfolding as_u8
present_slots present [] = []
present_slots present (k ∷ ks) =
    if get_or present (as_u8 k) false
    then k ∷ present_slots present ks
    else present_slots present ks

-- The error carries the slots that the source formats into its message.
unfoldable pub state_of_present : List Bool → Result (List MarketSlot) MarketState
state_of_present present =
    if is_exact present dormant_slots
    then ok dormant
    else if is_exact present unresolved_slots
    then ok unresolved
    else if is_exact present (resolved_yes_collateral ∷ [])
    then ok resolved_yes
    else if is_exact present (resolved_no_collateral ∷ [])
    then ok resolved_no
    else if is_exact present (expired_collateral ∷ [])
    then ok expired
    else err (present_slots present all_slots)

unfoldable pub derive_state_from_live_slots : List MarketSlot → Result (List MarketSlot) MarketState
derive_state_from_live_slots slots = state_of_present (mark_present slots no_slot)

unfoldable pub state_as_u64 : MarketState → ℕ
state_as_u64 dormant = 0
state_as_u64 unresolved = 1
state_as_u64 resolved_yes = 2
state_as_u64 resolved_no = 3
state_as_u64 expired = 4

unfoldable pub state_from_u64 : ℕ → Option MarketState
state_from_u64 v =
    if v == 0
    then some dormant
    else if v == 1
    then some unresolved
    else if v == 2
    then some resolved_yes
    else if v == 3
    then some resolved_no
    else if v == 4
    then some expired
    else none

unfoldable pub is_resolved : MarketState → Bool
is_resolved resolved_yes = true
is_resolved resolved_no = true
is_resolved _ = false

-- ===== src/Market/State/Derive.antt =====
-- What `derive_state_from_live_slots` decides, and the integer encodings of slots and states.
use deadcat.Prelude.{
  ℕ, ◌≡◌, refl, ◌↔◌, inl, inr, Bool, true, false, ◌||◌, some, List, [], ◌∷◌, arith, set, get_or, ok,
  err, Result-cases, ap, sym, ◌∙◌,
}
use mathlib.Core.Bool.{true≢false}
use deadcat.Market.State.{
  MarketState, MarketSlot, dormant, resolved_yes_collateral, resolved_no_collateral,
  expired_collateral, as_u8, slot_from_u8, contains, state, collateral_slot_for_state,
  is_collateral, live_slots_for_state, no_slot, mark_present, is_exact, state_of_present,
  derive_state_from_live_slots, state_as_u64, state_from_u64,
}

-- A slot is marked exactly when it was marked before or is in the list.
present_of : List Bool → MarketSlot → Bool
unfolding as_u8
present_of present k = get_or present (as_u8 k) false

data Eight : List Bool → Type 0 where
  eight : (a b c d e f g h : Bool) → Eight (a ∷ b ∷ c ∷ d ∷ e ∷ f ∷ g ∷ h ∷ [])

mark_one-Eight : (k : MarketSlot) {p : List Bool} → Eight p → Eight (set p (as_u8 k) true)
unfolding as_u8
mark_one-Eight MarketSlot.dormant_yes_rt (eight a b c d e f g h) = eight _ _ _ _ _ _ _ _
mark_one-Eight _ (eight a b c d e f g h) = eight _ _ _ _ _ _ _ _

mark_one :
    (k j : MarketSlot) {p : List Bool}
    → Eight p
    → present_of (set p (as_u8 k) true) j ≡ (contains (k ∷ []) j || present_of p j)
unfolding present_of contains
mark_one MarketSlot.dormant_yes_rt MarketSlot.dormant_yes_rt (eight a b c d e f g h) = refl
mark_one _ _ (eight a b c d e f g h) = ground arith

mark_present-Eight :
    (slots : List MarketSlot) {p : List Bool} → Eight p → Eight (mark_present slots p)
unfolding mark_present
mark_present-Eight [] h = h
mark_present-Eight (k ∷ slots) h = mark_present-Eight slots (mark_one-Eight k h)

present_of-mark :
    (slots : List MarketSlot) (j : MarketSlot) {p : List Bool}
    → Eight p
    → present_of (mark_present slots p) j ≡ (contains slots j || present_of p j)
unfolding mark_present contains
present_of-mark [] j h = refl
present_of-mark (k ∷ slots) j h =
    ground (arith, present_of-mark slots j (mark_one-Eight k h), mark_one k j h)

present_of-no_slot : (j : MarketSlot) → present_of no_slot j ≡ false
unfolding present_of
present_of-no_slot MarketSlot.dormant_yes_rt = refl
present_of-no_slot _ = refl

no_slot-Eight : Eight no_slot
no_slot-Eight = eight _ _ _ _ _ _ _ _

present_of-derived :
    (slots : List MarketSlot) (j : MarketSlot)
    → present_of (mark_present slots no_slot) j ≡ contains slots j
present_of-derived slots j =
    ground (arith, present_of-mark slots j no_slot-Eight, present_of-no_slot j)

-- `is_exact` compares the marks with the expected slots, one by one.
is_exact→same :
    {p : List Bool} (expected : List MarketSlot) (k : MarketSlot)
    → Eight p
    → is_exact p expected ≡ true
    → present_of p k ≡ contains expected k
unfolding is_exact present_of
is_exact→same expected MarketSlot.dormant_yes_rt (eight a b c d e f g h) x = ground arith
is_exact→same expected _ (eight a b c d e f g h) x = ground arith

same→is_exact :
    {p : List Bool} (expected : List MarketSlot)
    → Eight p
    → ((k : MarketSlot) → present_of p k ≡ contains expected k)
    → is_exact p expected ≡ true
unfolding is_exact present_of
same→is_exact expected (eight a b c d e f g h) same = ground (
  arith,
  same MarketSlot.dormant_yes_rt,
  same MarketSlot.dormant_no_rt,
  same MarketSlot.unresolved_yes_rt,
  same MarketSlot.unresolved_no_rt,
  same MarketSlot.unresolved_collateral,
  same resolved_yes_collateral,
  same resolved_no_collateral,
  same expired_collateral,
)

-- No two states have the same live slots.
live_slots_injective :
    (s t : MarketState)
    → ((k : MarketSlot) → contains (live_slots_for_state s) k ≡ contains (live_slots_for_state t) k)
    → s ≡ t
unfolding contains live_slots_for_state
live_slots_injective s t same = ground (
  arith,
  same MarketSlot.dormant_yes_rt,
  same MarketSlot.unresolved_collateral,
  same resolved_yes_collateral,
  same resolved_no_collateral,
  same expired_collateral,
)

state_of_present-eq-ok :
    (p : List Bool) (s : MarketState)
    → state_of_present p ≡ ok s
    → is_exact p (live_slots_for_state s) ≡ true
unfolding state_of_present live_slots_for_state
state_of_present-eq-ok p dormant h = ground arith
state_of_present-eq-ok p _ h = ground arith

state_of_present-eq-err :
    (p : List Bool) (s : MarketState) {e : List MarketSlot}
    → state_of_present p ≡ err e
    → is_exact p (live_slots_for_state s) ≡ false
unfolding state_of_present live_slots_for_state
state_of_present-eq-err p dormant h = ground arith
state_of_present-eq-err p _ h = ground arith

exact-state_of_present :
    {p : List Bool} (s : MarketState)
    → Eight p
    → is_exact p (live_slots_for_state s) ≡ true
    → state_of_present p ≡ ok s
exact-state_of_present {p} s w x = elim (Result-cases (state_of_present p)) [
  | inl (t, e) ↦
      e
      ∙ ap ok (
          live_slots_injective t s λ k.
            sym (is_exact→same (live_slots_for_state t) k w (state_of_present-eq-ok p t e))
            ∙ is_exact→same (live_slots_for_state s) k w x)
  | inr (_, e) ↦ absurd (true≢false (sym x ∙ state_of_present-eq-err p s e))
]

-- A set of live slots, listed in any order and with repetitions, is taken for state `s` exactly
-- when it holds the slots that are live in `s` and no others.
pub derive_state_iff :
    (slots : List MarketSlot) (s : MarketState)
    → (derive_state_from_live_slots slots ≡ ok s)
      ↔ ((k : MarketSlot) → contains slots k ≡ contains (live_slots_for_state s) k)
unfolding derive_state_from_live_slots
derive_state_iff slots s =
    let w = mark_present-Eight slots no_slot-Eight in
    (
      (λ h k.
          sym (present_of-derived slots k)
          ∙ is_exact→same (live_slots_for_state s) k w (state_of_present-eq-ok _ s h)),
      (λ same.
          exact-state_of_present s w
            (same→is_exact (live_slots_for_state s) w (λ k. present_of-derived slots k ∙ same k))),
    )

-- A slot is live in a state exactly when it commits to that state; and the collateral slot of a
-- state is the slot that commits to the state and holds collateral, none if there is no such slot.
pub live_slots-state :
    (s : MarketState) (k : MarketSlot)
    → ((contains (live_slots_for_state s) k ≡ true) ↔ (state k ≡ s))
      × ((collateral_slot_for_state s ≡ some k) ↔ ((state k ≡ s) × (is_collateral k ≡ true)))
unfolding contains live_slots_for_state state collateral_slot_for_state is_collateral
live_slots-state dormant k = ground arith
live_slots-state _ k = ground arith

-- A number decodes to a slot exactly when it is the code of the slot.
pub slot_from_u8_iff : (v : ℕ) (k : MarketSlot) → (slot_from_u8 v ≡ some k) ↔ (v ≡ as_u8 k)
unfolding slot_from_u8 as_u8
slot_from_u8_iff v MarketSlot.dormant_yes_rt = ground arith
slot_from_u8_iff v _ = ground arith

-- A number decodes to a state exactly when it is the code of the state.
pub state_from_u64_iff :
    (v : ℕ) (s : MarketState) → (state_from_u64 v ≡ some s) ↔ (v ≡ state_as_u64 s)
unfolding state_from_u64 state_as_u64
state_from_u64_iff v dormant = ground arith
state_from_u64_iff v _ = ground arith

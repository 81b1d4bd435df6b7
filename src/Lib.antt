-- ===== src/Lib.antt =====
-- Deadcat is a wallet and SDK for binary prediction markets on Liquid. This development models the
-- core of its Rust SDK, src-tauri/crates/deadcat-sdk/src (paths below are relative to it).
--
-- Parts and files:
-- - Prelude: helpers. Prelude/Tests has the Boolean tests, Prelude/Words the checked, saturating and
--   wrapping operations on `u64`, Prelude/Results Rust's `Result` with `?` as the bind of a `do`
--   block, Prelude/Lists the byte lists and lookups, Prelude/Int signed numbers.
-- - Error: error.rs, the errors that the modelled code returns.
-- - Pset: pset.rs. A transaction under construction is a record of its inputs and outputs, and the
--   functions that add to it in place take and return it. Pset/Totals adds up an asset over the
--   outputs.
-- - Market/State: prediction_market/state.rs, the lifecycle states and covenant slots;
--   Market/Params: params.rs and contract.rs of the same directory; Market/Pset: the eight builders
--   of prediction_market/pset, in Issue (creation, initial_issuance, issuance), Finish
--   (oracle_resolve, expire_transition) and Redeem (cancellation, post_resolution_redemption,
--   expiry_redemption), with the assets, amounts and scripts of their outputs in
--   Market/Pset/Outputs (Issue, Cancel and Redeem).
-- - Market/Backing: the life of a market as a step relation. Each step is a transaction of one
--   builder, tied to the market by what the chain enforces; what its steps leave and burn
--   is in Market/Backing/Held, and Market/Backing/Solvency has the
--   invariant of the locked collateral.
-- - MakerOrder: maker_order/params.rs in Params, pset/fill_order.rs in Fill, with its validation in
--   Fill/Validate and the layout of its transaction in Fill/Batch and Fill/Layout; create_order.rs
--   and cancel_order.rs in Own, with the balance of their transactions in Own/Balance.
-- - Pool: pool.rs, the probabilities that reserves imply.
-- - Trade: the records of trade/types.rs and trade/router.rs in Types, how much of one order a trade
--   fills in Fill (with the validation of the maker orders in Fill/Accepted and Fill/Sold), prices
--   and the queue of eligible orders in Price, the greedy loop over the queue in Route, and
--   `build_execution_plan` and `plan_to_route_legs` in Plan (the price of the pool in Plan/Spot, the filled orders in
--   Plan/Within and Plan/Order); trade/pset.rs, the combined transaction
--   of a plan, in Assembly; the reading of an announced order (trade/convert.rs) in Convert.
-- - Lmsr/Params, Lmsr/Math, Lmsr/Exact, Lmsr/Table: lmsr_pool/params.rs, math.rs and table.rs.
--   Lmsr/Exact has the search of `quote_exact_input_from_manifest` and the spot price; Lmsr/Table
--   the Merkle commitment to the table of the cost function.
-- - Scan: prediction_market/anchor.rs in Anchor; prediction_market_scan.rs in Chain (what is read of
--   transactions, the backend and the covenant outputs of a transaction), Creation (the check of the
--   creation transaction), Transition (the bundle of live outputs and the moves of
--   `resolve_dormant_transition`, `resolve_unresolved_transition` and
--   `resolve_terminal_transition`) and Walk (the loop of `scan_prediction_market_canonical`).
--   Outputs and Proper tie bundles to the covenant's scripts, Walk/Live the result to the chain, and
--   Walk/Ends the number of rounds to the height of the chain.
-- - Tests: every theorem below at a concrete input, and figures of the repository's unit tests.
--
-- The builders of the market take their covenant scripts from the compiled contract, and the state
-- of a market decides which builder can spend its collateral. The pool's quotes read the cost
-- function through a table manifest, which the commitment ties to the root in the pool's
-- parameters. The router fills maker orders by their own rules and asks the pool for a quote on the
-- rest; its plan is the input of the combined transaction. The scan reads the state of a market off the chain, by the slots of Market/State and the
-- scripts of the compiled contract.
--
-- Numbers: a `u64` or `u32` is a natural number; checked operations test against 2 ^ 64, plain ones
-- wrap as a release build does, and theorems name the bounds they need. A `u128` is a natural number:
-- no product of two `u64` overflows it. Loops are structural recursion, on the list or on the number
-- of rounds; the loop that hashes the table level by level has 64 rounds of fuel, and a list whose
-- length is a `usize` is halved no more than 64 times, so that the fuel does not run out. The loop of
-- the scan runs on fuel that its caller gives, and answers `none` where it runs out; each round
-- but the last moves to a later transaction of the chain, so that a chain of `n` transactions wants
-- no more than `n + 1` rounds.
--
-- Parameters: SHA-256 is an argument of the table definitions, and the script of a covenant slot is
-- a field of the compiled contract, since the SimplicityHL compiler makes it. Theorems that need the
-- length of a digest say so. The price of an order is a floating-point number in the source: its
-- type, the conversion from `u64`, the division and the comparison are arguments of the router's
-- definitions. The combined transaction takes the compiled pool and the makers' receive scripts as
-- arguments (`compile_pool`, `receive_spk`), and the reading of an order the decoder of
-- hexadecimal digits. The scan takes its chain backend, the compiler, and the functions of other crates on
-- texts, assets and commitments (the records `Text` and `Elements`) as arguments; a backend answers
-- the same question in the same way throughout a scan.
--
-- Not modelled: the generation of the table (floating-point numbers), SimplicityHL compilation,
-- witnesses and signatures, the chain backend, the wallet, discovery over Nostr (but for the reading of
-- an announced order), the store, and the desktop application.
pub mod Prelude
pub mod Error
pub mod Pset
pub mod Market
pub mod Lmsr
pub mod Pool
pub mod MakerOrder
pub mod Trade
pub mod Scan
pub mod Tests

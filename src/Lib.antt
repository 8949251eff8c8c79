-- ===== src/Lib.antt =====
-- BaseBuster: an arbitrage bot for the Base chain, modelled and verified.
--
-- The program keeps the state of the liquidity pools in a local database (src/state_db), follows the
-- chain block by block (src/market_state.rs), keeps the pools that can be swapped (src/filter.rs),
-- searches the token graph for cycles once (src/graph.rs), estimates after each block which cycles
-- through the updated pools earn (src/estimator.rs, src/searcher.rs), calculates the best of them
-- exactly (src/calculation, src/cache.rs), quotes it against the contract (src/simulator.rs,
-- src/quoter.rs), and sends it as a transaction (src/swap.rs, src/tx_sender.rs, src/gas_station.rs).
--
-- The files:
--   Prelude: numbers, words of 256 bits, signed integers, lists, maps, and the outcome of a Rust
--     call, which is a value, an error or a panic.
--   Pool: what is read of pool_sync's pools.
--   StateDb: src/state_db. Types has BlockStateDb, the source's BlockStateDB; New the empty database,
--     Database its reads and insertions; Commit the commit of an EVM run; V2 and V3 the pools of
--     v2_db.rs and v3_db.rs. ReadThrough, Insertions, Commit/Laws, V2/Laws and V3/RoundTrip have the
--     theorems.
--   Swap: src/swap.rs.
--   Graph: src/graph.rs, over petgraph's interface in Graph/Library. Build has the construction of
--     the graph, Cycles the search for cycles. Build/Nodes, Edges and Growth say what the graph of
--     the pools is, and Build/Generated and Exact what its cycles are.
--   Cache, Calculation: src/cache.rs, and of src/calculation calculator.rs, aerodrome.rs, uniswap.rs
--     and balancer.rs. UniswapV3 has the swap loop, over the crate uniswap_v3_math as the record
--     UniswapMath; its children have the bitmap positions, the liquidity across a tick, and the end of
--     the loop. Balancer has the weighted formula and Balancer/LogExp the logarithm and the
--     exponential, with their runs of equal tests written as lists of constants. Quotes has curve.rs
--     and maverick.rs. Calculator has the interface Swaps that paths are calculated over.
--   Estimator: src/estimator.rs.
--   Searcher: src/searcher.rs. The search takes the estimate and the Swaps interface.
--   MarketState: src/market_state.rs. The trace of a block is a parameter; Tracing has what
--     src/tracing.rs makes of the node's answer. MarketState/WarmUp primes the database, Tracked has
--     the pools that it tracks.
--   HistoryDb: src/history_db.rs, over reth's provider.
--   Quoter: src/quoter.rs. The result of a run of the quoter contract and the ABI decoder are
--     parameters. Stores has what a run stores in the shared database, as any calls of revm's Database
--     interface with any answers of the provider; Extends has what these keep.
--   Simulator: src/simulator.rs. Each event carries what the calculator and the quoter contract answer
--     when it is handled.
--   Filter: src/filter.rs. Routers has the routers and the calls, SlotMap the balance slots, BySwap the
--     swaps there and back, over node_db and revm as the record NodeEvm; Kept, Slots and Vetted
--     have the theorems.
--   TxSender: src/tx_sender.rs and src/gas_station.rs.
--   Ignition: src/ignition.rs and src/events.rs. Launching has start_workers up to the launch,
--     Workers one turn of each worker's loop on the events of its channel, and Steps the workers
--     together, as a relation in which any worker may take the next turn. Turns inverts the turns,
--     Channels has the kinds of the events, Progress and Drains the end of the queued work, Order the
--     order of the blocks and the nonces, Replay the versions of the database (over
--     MarketState/Refined), and Chains, Origin, Traced, Posted and EndToEnd where a transaction comes
--     from.
--   Tests: concrete runs.
--
-- Conventions. A mutating method returns the new state. Addresses, hashes and words are natural
-- numbers; the operators of U256 wrap around at 2 ^ 256, as ruint's do. A HashMap is an association
-- list with one entry per key. Maps and sets are visited in an order that the statements do not
-- depend on. The provider, keccak, petgraph, EVM defaults, the signer and the sequencer are
-- parameters. Powers of u64 wrap around, as in a release build.
--
-- Fuel. construct_cycles has one unit more than max_hops, which is enough because a path of max_hops
-- hops is not extended. The iteration of the stable pools has the 255 passes of the source, and the
-- scan for a better input its 50 turns. The V3 swap loop has 2 ^ 24 + 2 passes at most, since each
-- pass that does not end it comes nearer to the last tick and a tick has 24 bits. The catch-up loop
-- consumes the list of the heads that the provider answers, and its statement holds of every list.
--
-- Interleaving. A turn of a worker is one step. What a quote stores in the database is a step of its
-- own, before the step of the turn that it belongs to, since the updater may write between two quotes
-- of a turn: the turn finds the result of a quote in some version of the database. In the same way
-- each read of a turn may find any version of the database up to the step, and a query that is asked
-- twice in a turn finds one version. Which calls of Database a quote makes is left open, so that every
-- run of the contract is among the steps; its result is a function of its parameters and of the
-- version that it finds. The pools' descriptions do not change, and are read from the last version.
-- std's channels are queues without a bound. tokio's broadcast channel is left open: its receivers may
-- get any header at any time, or no further one. A worker that panics takes no turn again. The
-- searcher starts after the catching up, as in start_workers; generate_cycles is run before the first
-- rates and not after them, which no result depends on.
--
-- Not modelled: main.rs, which loads the pools (all of two tokens), stream.rs, which forwards the
-- node's headers, TransactionSender::new, and the opening of the node's database. Cache::set and the
-- readers of Aerodrome's fee, decimals and kind, and the pool manager of balancer.rs are not declared
-- in the source; they are parameters.
pub mod Prelude
pub mod Pool
pub mod StateDb
pub mod Swap
pub mod Graph
pub mod Cache
pub mod Calculation
pub mod Estimator
pub mod Searcher
pub mod MarketState
pub mod HistoryDb
pub mod Tracing
pub mod Quoter
pub mod Simulator
pub mod Filter
pub mod Ignition
pub mod TxSender
pub mod Tests

-- ===== src/Graph/Build.antt =====
-- `build_graph` and `generate_cycles` of src/graph.rs.
pub mod Total
pub mod Nodes
pub mod Joins
pub mod Edges
pub mod Grows
pub mod Growth
pub mod Generated
pub mod Exact
use base_buster.Prelude.{
  ℕ, suc, Bool, true, false, not, ◌&&◌, List, [], ◌∷◌, map, Option, none, some, Outcome, ok, unwrap,
  ◌>>=◌, ◌==◌, if◌then◌else◌, contains,
}
use base_buster.Pool.{Address, Pool, balancer_v2, curve_tri_crypto, same_type}
use base_buster.Swap.{SwapStep, SwapPath}
use base_buster.Graph.Library.{UnGraph}
use base_buster.Graph.Cycles.{find_all_arbitrage_paths}

-- `node_indices().find(…)` over the weights in order, from an index on.
unfoldable pub find_node : Address → List Address → ℕ → Option ℕ
find_node token [] i = none
find_node token (weight ∷ weights) i =
    if weight == token then some i else find_node token weights (suc i)

-- The graph while it is built, with `inserted_nodes`.
pub record Building (G : Type 0) : Type 0 where
  pub graph : G
  pub inserted_nodes : List Address

module _ {G : Type 0} (lib : UnGraph G) where
  unfoldable pub add_token : Building G → Address → Building G
  add_token b token =
      if contains token b.inserted_nodes
      then b
      else record { graph = lib.add_node b.graph token; inserted_nodes = token ∷ b.inserted_nodes }

  unfoldable pub add_tokens : Building G → List Address → Building G
  add_tokens b [] = b
  add_tokens b (token ∷ tokens) = add_tokens (add_token b token) tokens

  -- One edge between the nodes of two tokens.
  unfoldable pub join : Pool → G → Address → Address → Outcome G
  join pool g token_in token_out = do
    node_in ← unwrap (find_node token_in (lib.nodes g) 0)
    node_out ← unwrap (find_node token_out (lib.nodes g) 0)
    ok (lib.add_edge g node_in node_out pool)

  -- The inner loop, over the tokens behind `token_in`; `keep` is the test on the pair.
  unfoldable pub join_rest :
      (Address → Address → Bool) → Pool → G → Address → List Address → Outcome G
  join_rest keep pool g token_in [] = ok g
  join_rest keep pool g token_in (token_out ∷ tokens) = elim (keep token_in token_out) [
    | true ↦ join pool g token_in token_out >>= λ h. join_rest keep pool h token_in tokens
    | false ↦ join_rest keep pool g token_in tokens
  ]

  unfoldable pub join_pairs : (Address → Address → Bool) → Pool → G → List Address → Outcome G
  join_pairs keep pool g [] = ok g
  join_pairs keep pool g (token_in ∷ tokens) =
      join_rest keep pool g token_in tokens >>= λ h. join_pairs keep pool h tokens

  abbrev pub with_graph : Building G → Outcome G → Outcome (Building G)
  with_graph b m = m >>= λ g. ok (record { graph = g; inserted_nodes = b.inserted_nodes })

  unfoldable pub add_simple_pool_to_graph : Building G → Pool → Outcome (Building G)
  add_simple_pool_to_graph b pool =
      let after = add_token (add_token b pool.token0_address) pool.token1_address in
      with_graph after (join pool after.graph pool.token0_address pool.token1_address)

  unfoldable pub add_curve_pool_to_graph : Building G → Pool → Outcome (Building G)
  add_curve_pool_to_graph b pool =
      let after = add_tokens b pool.tokens in
      with_graph after (join_pairs (λ token_in token_out. true) pool after.graph pool.tokens)

  abbrev pub nonzero_balances : Pool → Address → Address → Bool
  nonzero_balances pool token_in token_out =
      not (pool.balance token_in == 0) && not (pool.balance token_out == 0)

  unfoldable pub add_balancer_pool_to_graph : Building G → Pool → Outcome (Building G)
  add_balancer_pool_to_graph b pool =
      let after = add_tokens b pool.tokens in
      with_graph after (join_pairs (nonzero_balances pool) pool after.graph pool.tokens)

  unfoldable pub add_pool_to_graph : Building G → Pool → Outcome (Building G)
  add_pool_to_graph b pool =
      if same_type pool.pool_type balancer_v2
      then add_balancer_pool_to_graph b pool
      else if same_type pool.pool_type curve_tri_crypto
      then add_curve_pool_to_graph b pool
      else add_simple_pool_to_graph b pool

  unfoldable pub build_pools : Building G → List Pool → Outcome (Building G)
  build_pools b [] = ok b
  build_pools b (pool ∷ pools) = add_pool_to_graph b pool >>= λ after. build_pools after pools

  unfoldable pub build_graph : List Pool → Outcome G
  build_graph working_pools =
      build_pools (record { graph = lib.new_undirected; inserted_nodes = [] }) working_pools
      >>= λ b. ok b.graph

  -- `hash` stands for the default hasher over the steps.
  unfoldable pub generate_cycles :
      (List SwapStep → ℕ) → Address → List Pool → Outcome (List SwapPath)
  generate_cycles hash token working_pools = do
    graph ← build_graph working_pools
    start_node ← unwrap (find_node token (lib.nodes graph) 0)
    ok (
        map (λ cycle. record { steps = cycle; hash = hash cycle })
          (find_all_arbitrage_paths lib graph start_node 2))

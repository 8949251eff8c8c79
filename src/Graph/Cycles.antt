-- ===== src/Graph/Cycles.antt =====
-- `find_all_arbitrage_paths` and `construct_cycles` of src/graph.rs.
pub mod Found
pub mod Sound
pub mod Complete
use base_buster.Prelude.{
  ℕ, zero, suc, Bool, true, false, not, ◌&&◌, ◌||◌, List, [], ◌∷◌, ◌++◌, map, leb, ◌==◌,
  if◌then◌else◌, length, contains, remove,
}
use base_buster.Pool.{Address, Pool, PoolType, same_type}
use base_buster.Swap.{SwapStep, SwapPath}
use base_buster.Graph.Library.{UnGraph}

-- A hop: the node it leaves, the pool, the node it reaches.
abbrev pub Hop : Type 0
Hop = ℕ × Pool × ℕ

-- What the recursion mutates.
pub record Search : Type 0 where
  pub current_path : List Hop
  pub visited : List ℕ
  pub all_paths : List (List SwapStep)

abbrev pub empty_search : Search
empty_search = record { current_path = []; visited = []; all_paths = [] }

-- `Vec::pop`
abbrev pub pop : List Hop → List Hop
pop [] = []
pop (h ∷ []) = []
pop (h ∷ h' ∷ hs) = h ∷ pop (h' ∷ hs)

-- The test that a hop back to the start closes a cycle worth keeping.
unfoldable pub closes : List Hop → PoolType → Bool
closes [] protocol = false
closes ((_, first, _) ∷ []) protocol = not (same_type first.pool_type protocol)
closes (_ ∷ _ ∷ _) protocol = true

module _ {G : Type 0} (lib : UnGraph G) (graph : G) where
  abbrev pub swap_step : Hop → SwapStep
  swap_step (base, pool, quote) = record {
    pool_address = pool.address;
    token_in = lib.weight graph base;
    token_out = lib.weight graph quote;
    protocol = pool.pool_type;
    fee = pool.fee;
  }

  module _ (start_node : ℕ) (max_hops : ℕ) where
    -- The body of the `for` loop; `recurse` is the call of `construct_cycles` itself.
    unfoldable pub follow_edge : (ℕ → Search → Search) → ℕ → ℕ × Pool → Search → Search
    follow_edge recurse current_node (next_node, protocol) s =
        if next_node == start_node
        then (if closes s.current_path protocol.pool_type
            then record s {
              all_paths =
                  s.all_paths
                  ++ map swap_step (s.current_path ++ (current_node, protocol, next_node) ∷ [])
                    ∷ [];
            }
            else s)
        else if contains next_node s.visited
        then s
        else (let inner = recurse next_node (record s {
          current_path = s.current_path ++ (current_node, protocol, next_node) ∷ [];
          visited = next_node ∷ s.visited;
        }) in
            record inner {
              current_path = pop inner.current_path;
              visited = remove next_node inner.visited;
            })

    unfoldable pub follow_edges : (ℕ → Search → Search) → ℕ → List (ℕ × Pool) → Search → Search
    follow_edges recurse current_node [] s = s
    follow_edges recurse current_node (edge ∷ edges) s =
        follow_edges recurse current_node edges (follow_edge recurse current_node edge s)

    -- The fuel bounds the depth of the recursion.
    unfoldable pub construct_cycles : ℕ → ℕ → Search → Search
    construct_cycles zero current_node s = s
    construct_cycles (suc fuel) current_node s =
        if leb max_hops (length s.current_path)
        then s
        else follow_edges (construct_cycles fuel) current_node (lib.edges graph current_node) s

    unfoldable pub find_all_arbitrage_paths : List (List SwapStep)
    find_all_arbitrage_paths = (construct_cycles (suc max_hops) start_node empty_search).all_paths

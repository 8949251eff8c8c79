-- ===== src/Graph/Library.antt =====
-- petgraph's undirected graph, as far as src/graph.rs uses it: its operations, and what its
-- documentation says of them. Nodes are numbered from 0 in the order in which they are added.
use base_buster.Prelude.{ℕ, ◌≡◌, ◌⊎◌, ◌↔◌, List, [], ◌∷◌, ◌++◌, get_elem?, some, In}
use base_buster.Pool.{Address, Pool}

pub record UnGraph (G : Type 0) : Type 0 where
  pub new_undirected : G
  pub add_node : G → Address → G
  pub add_edge : G → ℕ → ℕ → Pool → G
  -- the weights `graph[i]` of `node_indices()`, in order
  pub nodes : G → List Address
  -- `graph[i]`
  pub weight : G → ℕ → Address
  -- target and weight of each of `edges(n)`
  pub edges : G → ℕ → List (ℕ × Pool)
  pub nodes-new : nodes new_undirected ≡ []
  pub edges-new : (n : ℕ) → edges new_undirected n ≡ []
  pub nodes-add_node : (g : G) (a : Address) → nodes (add_node g a) ≡ nodes g ++ a ∷ []
  pub edges-add_node : (g : G) (a : Address) (n : ℕ) → edges (add_node g a) n ≡ edges g n
  pub nodes-add_edge : (g : G) (i j : ℕ) (p : Pool) → nodes (add_edge g i j p) ≡ nodes g
  pub edges-add_edge :
      (g : G) (i j : ℕ) (p : Pool) (n : ℕ) (e : ℕ × Pool)
      → In e (edges (add_edge g i j p) n)
        ↔ (In e (edges g n) ⊎ ((n ≡ i) × (e ≡ (j, p))) ⊎ ((n ≡ j) × (e ≡ (i, p))))
  pub weight-nodes : (g : G) (i : ℕ) (a : Address) → get_elem? (nodes g) i ≡ some a → weight g i ≡ a

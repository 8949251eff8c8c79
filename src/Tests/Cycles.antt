-- ===== src/Tests/Cycles.antt =====
-- A run of the cycle search, over a graph that is a list of edges.
use base_buster.Prelude.{
  ℕ, ◌≡◌, ◌⊎◌, ◌↔◌, refl, ap, inl, inr, Bool, true, false, List, [], ◌∷◌, ◌++◌, Option, none, some,
  ok, ◌==◌, if◌then◌else◌, get_elem?, In, ==_iff,
}
use base_buster.Pool.{Address, Pool, sushiswap_v2}
use base_buster.Swap.{SwapStep}
use base_buster.Graph.Library.{UnGraph}
use base_buster.Graph.Build.{build_graph}
use base_buster.Graph.Build.Total.{build_graph_total}
use base_buster.Graph.Cycles.{swap_step, find_all_arbitrage_paths}
use base_buster.Graph.Cycles.Sound.{Completed}
use base_buster.Graph.Cycles.Complete.{
  TwoPools, find_all_arbitrage_paths_exact, find_all_arbitrage_paths_two,
}
use base_buster.Tests.Data.{test_pool}

pub record EdgeList : Type 0 where
  pub nodes : List Address
  pub joined : List (ℕ × ℕ × Pool)

abbrev pub edges_of : ℕ → List (ℕ × ℕ × Pool) → List (ℕ × Pool)
edges_of n [] = []
edges_of n ((i, j, p) ∷ rest) =
    let back = if n == j then (i, p) ∷ edges_of n rest else edges_of n rest in
    if n == i then (j, p) ∷ back else back

In-if :
    {A : Type 0} (b : Bool) (e x : A) (xs : List A)
    → In e (if b then x ∷ xs else xs) ↔ (((b ≡ true) × (e ≡ x)) ⊎ In e xs)
In-if true e x xs = (
  λ m. elim m [ inl p ↦ inl (refl, p) | inr k ↦ inr k ],
  λ m. elim m [ inl p ↦ inl p.1 | inr k ↦ inr k ],
)
In-if false e x xs = (inr, λ m. elim m [ inl p ↦ cc | inr k ↦ k ])

pub edges_of-In :
    (n i j : ℕ) (p : Pool) (rest : List (ℕ × ℕ × Pool)) (e : ℕ × Pool)
    → In e (edges_of n ((i, j, p) ∷ rest))
      ↔ (In e (edges_of n rest) ⊎ ((n ≡ i) × (e ≡ (j, p))) ⊎ ((n ≡ j) × (e ≡ (i, p))))
edges_of-In n i j p rest e =
    let back : List (ℕ × Pool) = if n == j then (i, p) ∷ edges_of n rest else edges_of n rest in
    let outer = In-if (n == i) e (j, p) back in
    let inner = In-if (n == j) e (i, p) (edges_of n rest) in
    (
      λ m. elim (outer.0 m) [
        | inl (b, q) ↦ inr (inl ((==_iff n i).0 b, q))
        | inr k ↦ elim (inner.0 k) [ inl (b, q) ↦ inr (inr ((==_iff n j).0 b, q)) | inr l ↦ inl l ]
      ],
      λ m. elim m [
        | inl l ↦ outer.1 (inr (inner.1 (inr l)))
        | inr (inl (b, q)) ↦ outer.1 (inl ((==_iff n i).1 b, q))
        | inr (inr (b, q)) ↦ outer.1 (inr (inner.1 (inl ((==_iff n j).1 b, q))))
      ],
    )

abbrev pub weight_of : Option Address → Address
weight_of none = 0
weight_of (some a) = a

abbrev pub edge_list : UnGraph EdgeList
edge_list = record {
  new_undirected = record { nodes = []; joined = [] };
  add_node = λ g a. record { nodes = g.nodes ++ a ∷ []; joined = g.joined };
  add_edge = λ g i j p. record { nodes = g.nodes; joined = (i, j, p) ∷ g.joined };
  nodes = λ g. g.nodes;
  weight = λ g i. weight_of (get_elem? g.nodes i);
  edges = λ g n. edges_of n g.joined;
  nodes-new = refl;
  edges-new = λ n. refl;
  nodes-add_node = λ g a. refl;
  edges-add_node = λ g a n. refl;
  nodes-add_edge = λ g i j p. refl;
  edges-add_edge = λ g i j p n e. edges_of-In n i j p g.joined e;
  weight-nodes = λ g i a h. ap weight_of h;
}

-- Two tokens joined by two pools of different types.
abbrev pub other_pool : Pool
other_pool = record test_pool { address = 2; pool_type = sushiswap_v2 }

abbrev two_edges : EdgeList
two_edges = record { nodes = 10 ∷ 11 ∷ []; joined = (0, 1, test_pool) ∷ (0, 1, other_pool) ∷ [] }

abbrev there_and_back : List SwapStep
there_and_back =
    swap_step edge_list two_edges (0, test_pool, 1)
    ∷ swap_step edge_list two_edges (1, other_pool, 0)
    ∷ []

find_all_arbitrage_paths_exact_example :
    In there_and_back (find_all_arbitrage_paths edge_list two_edges 0 2)
    ↔ Completed edge_list two_edges 0 2 0 [] [] there_and_back
find_all_arbitrage_paths_exact_example =
    find_all_arbitrage_paths_exact edge_list two_edges 0 2 there_and_back

find_all_arbitrage_paths_two_example :
    In there_and_back (find_all_arbitrage_paths edge_list two_edges 0 2)
    ↔ TwoPools edge_list two_edges 0 there_and_back
find_all_arbitrage_paths_two_example =
    find_all_arbitrage_paths_two edge_list two_edges 0 there_and_back

build_graph_total_example :
    (g : EdgeList) × (build_graph edge_list (test_pool ∷ other_pool ∷ []) ≡ ok g)
build_graph_total_example = build_graph_total edge_list (test_pool ∷ other_pool ∷ [])

-- ===== src/Graph/Cycles/Found.antt =====
-- The search without its mutable state: the cycles that one call adds, as a list.
use base_buster.Prelude.{
  ℕ, zero, suc, ◌≡◌, refl, ap, inl, inr, false, List, [], ◌∷◌, ◌++◌, map, leb, ◌==◌, if◌then◌else◌,
  length, contains, remove, arith, Bool-cases,
}
use mathlib.Core.List.{append-nil, append_assoc}
use base_buster.Pool.{Pool}
use base_buster.Swap.{SwapStep}
use base_buster.Graph.Library.{UnGraph}
use base_buster.Graph.Cycles.{
  Hop, Search, pop, closes, swap_step, follow_edge, follow_edges, construct_cycles,
}

pub pop-append : (path : List Hop) (h : Hop) → pop (path ++ h ∷ []) ≡ path
pop-append [] h = refl
pop-append (x ∷ []) h = refl
pop-append (x ∷ y ∷ path) h = ap (◌∷◌ x) (pop-append (y ∷ path) h)

remove_absent : (n : ℕ) (xs : List ℕ) → contains n xs ≡ false → remove n xs ≡ xs
remove_absent n [] h = refl
remove_absent n (x ∷ xs) h = ground (arith, remove_absent n xs)

module _ {G : Type 0} (lib : UnGraph G) (graph : G) (start_node : ℕ) (max_hops : ℕ) where
  unfoldable pub found_by :
      (ℕ → List Hop → List ℕ → List (List SwapStep))
      → ℕ
      → List Hop
      → List ℕ
      → ℕ × Pool
      → List (List SwapStep)
  found_by recurse current path visited (next, protocol) =
      if next == start_node
      then (if closes path protocol.pool_type
          then map (swap_step lib graph) (path ++ (current, protocol, next) ∷ []) ∷ []
          else [])
      else if contains next visited
      then []
      else recurse next (path ++ (current, protocol, next) ∷ []) (next ∷ visited)

  unfoldable pub found_all :
      (ℕ → List Hop → List ℕ → List (List SwapStep))
      → ℕ
      → List Hop
      → List ℕ
      → List (ℕ × Pool)
      → List (List SwapStep)
  found_all recurse current path visited [] = []
  found_all recurse current path visited (edge ∷ edges) =
      found_by recurse current path visited edge ++ found_all recurse current path visited edges

  unfoldable pub found : ℕ → ℕ → List Hop → List ℕ → List (List SwapStep)
  found zero current path visited = []
  found (suc fuel) current path visited =
      if leb max_hops (length path)
      then []
      else found_all (found fuel) current path visited (lib.edges graph current)

  -- A call restores the path and the visited set, and appends what it found.
  abbrev Adds : (ℕ → Search → Search) → (ℕ → List Hop → List ℕ → List (List SwapStep)) → Type 0
  Adds run collect =
      (n : ℕ) (s : Search)
      → run n s ≡ record s { all_paths = s.all_paths ++ collect n s.current_path s.visited }

  follow_edge-found_by :
      (run : ℕ → Search → Search) (collect : ℕ → List Hop → List ℕ → List (List SwapStep))
      → Adds run collect
      → (current : ℕ) (edge : ℕ × Pool) (s : Search)
      → follow_edge lib graph start_node max_hops run current edge s ≡ record s {
        all_paths = s.all_paths ++ found_by collect current s.current_path s.visited edge;
      }
  unfolding follow_edge found_by
  follow_edge-found_by run collect h current (next, protocol) s =
      let hop : Hop = (current, protocol, next) in
      let inner : Search = record s {
        current_path = s.current_path ++ hop ∷ [];
        visited = next ∷ s.visited;
      } in
      ground (
        arith,
        h next inner,
        pop-append s.current_path hop,
        remove_absent next s.visited,
        append-nil s.all_paths,
      )

  follow_edges-found_all :
      (run : ℕ → Search → Search) (collect : ℕ → List Hop → List ℕ → List (List SwapStep))
      → Adds run collect
      → (current : ℕ) (edges : List (ℕ × Pool)) (s : Search)
      → follow_edges lib graph start_node max_hops run current edges s ≡ record s {
        all_paths = s.all_paths ++ found_all collect current s.current_path s.visited edges;
      }
  unfolding follow_edges found_all
  follow_edges-found_all run collect h current [] s = rw append-nil
  follow_edges-found_all run collect h current (edge ∷ edges) s =
      rw (follow_edge-found_by run collect h current edge s)
        (rw (follow_edges-found_all run collect h current edges _) (rw append_assoc))

  pub construct_cycles-found :
      (fuel : ℕ) → Adds (construct_cycles lib graph start_node max_hops fuel) (found fuel)
  unfolding construct_cycles found
  construct_cycles-found zero n s = rw append-nil
  construct_cycles-found (suc fuel) n s = elim (Bool-cases (leb max_hops (length s.current_path))) [
    | inl stop ↦ rw stop (rw append-nil)
    | inr go ↦
        rw go (follow_edges-found_all _ _ (construct_cycles-found fuel) n (lib.edges graph n) s)
  ]

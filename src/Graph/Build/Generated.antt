-- ===== src/Graph/Build/Generated.antt =====
-- The cycles that the program searches over.
use mathlib.Core.Path.{subst}
use base_buster.Prelude.{
  ℕ, ◌≡◌, ◌≢◌, sym, ap, ◌∙◌, inl, inr, false, List, [], ◌∷◌, map, some, some-injective, ok,
  get_elem?, In, All, In→All, >>=-eq-ok, ok-injective, unwrap, unwrap-some,
}
use base_buster.Pool.{Address, Pool, same_type}
use base_buster.Swap.{SwapStep, SwapPath}
use base_buster.Graph.Library.{UnGraph}
use base_buster.Graph.Cycles.{find_all_arbitrage_paths}
use base_buster.Graph.Cycles.Complete.{find_all_arbitrage_paths_two, TwoPools}
use base_buster.Graph.Build.{find_node, build_graph, generate_cycles}
use base_buster.Graph.Build.Nodes.{find_node_first, Distinct}
use base_buster.Graph.Build.Joins.{Trades, EdgesOk}
use base_buster.Graph.Build.Edges.{build_graph-Edges}

abbrev pub step_of : Address → Pool → Address → SwapStep
step_of token_in pool token_out = record {
  pool_address = pool.address;
  token_in = token_in;
  token_out = token_out;
  protocol = pool.pool_type;
  fee = pool.fee;
}

-- Two pools of the list, of different types, that trade the token for another one and back.
pub record RoundTrip (pools : List Pool) (token : Address) (steps : List SwapStep) : Type 0 where
  pub middle : Address
  pub first : Pool
  pub second : Pool
  pub elsewhere : middle ≢ token
  pub first_in : In first pools
  pub second_in : In second pools
  pub differ : same_type first.pool_type second.pool_type ≡ false
  pub first_trades : Trades first token middle
  pub second_trades : Trades second middle token
  pub there_and_back : steps ≡ step_of token first middle ∷ step_of middle second token ∷ []

module _ {G : Type 0} (lib : UnGraph G) (pools : List Pool) (token : Address) where
  TwoPools-RoundTrip :
      (g : G) (start_node : ℕ) (c : List SwapStep)
      → EdgesOk lib pools g
      → Distinct (lib.nodes g)
      → get_elem? (lib.nodes g) start_node ≡ some token
      → TwoPools lib g start_node c
      → RoundTrip pools token c
  TwoPools-RoundTrip g s c edges distinct at_s (q, first, second, away, out, home, differ, e) =
      let (in_first, (a, m, at_a, at_m, trades_out)) = edges s (q, first) out in
      let (in_second, (m', b, at_m', at_b, trades_back)) = edges q (s, second) home in
      let from_token : a ≡ token = some-injective (sym at_a ∙ at_s) in
      let to_token : b ≡ token = some-injective (sym at_b ∙ at_s) in
      let same : m' ≡ m = some-injective (sym at_m' ∙ at_m) in
      let start = lib.weight-nodes g s token at_s in
      let mid = lib.weight-nodes g q m at_m in
      record {
        middle = m;
        first = first;
        second = second;
        elsewhere = λ e.
            away (distinct q s token (subst (λ z. get_elem? (lib.nodes g) q ≡ some z) e at_m) at_s);
        first_in = in_first;
        second_in = in_second;
        differ = differ;
        first_trades = subst (λ z. Trades first z m) from_token trades_out;
        second_trades =
            subst (λ z. Trades second z token) same
              (subst (λ z. Trades second m' z) to_token trades_back);
        there_and_back =
            e ∙ λ i. step_of (start i) first (mid i) ∷ step_of (mid i) second (start i) ∷ [];
      }

  In-map :
      (hash : List SwapStep → ℕ) (cycles : List (List SwapStep)) (path : SwapPath)
      → In path (map (λ c. record { steps = c; hash = hash c }) cycles)
      → In path.steps cycles × (path.hash ≡ hash path.steps)
  In-map hash [] path m = absurd m
  In-map hash (c ∷ cycles) path (inl e) =
      (inl (ap (λ z. z.steps) e), ap (λ z. z.hash) e ∙ ap hash (sym (ap (λ z. z.steps) e)))
  In-map hash (c ∷ cycles) path (inr m) = let (k, h) = In-map hash cycles path m in (inr k, h)

  -- The program's cycles are round trips from the token over two of its pools of different types, each
  -- swapping tokens of its pool, with the hash of their steps.
  pub generate_cycles-RoundTrip :
      (hash : List SwapStep → ℕ) (cycles : List SwapPath)
      → generate_cycles lib hash token pools ≡ ok cycles
      → All (λ path. RoundTrip pools token path.steps × (path.hash ≡ hash path.steps)) cycles
  unfolding generate_cycles
  generate_cycles-RoundTrip hash cycles h =
      let (g, built, h1) = >>=-eq-ok (build_graph lib pools) _ h in
      let (s, found, h2) = >>=-eq-ok (unwrap (find_node token (lib.nodes g) 0)) _ h1 in
      let (edges, distinct) = build_graph-Edges lib pools g built in
      let at_s = find_node_first token (lib.nodes g) s (unwrap-some _ s found) in
      subst (All (λ path. RoundTrip pools token path.steps × (path.hash ≡ hash path.steps)))
        (ok-injective h2)
        (In→All _ _ (λ path m.
          let (k, same) = In-map hash (find_all_arbitrage_paths lib g s 2) path m in
          (
            TwoPools-RoundTrip g s path.steps edges distinct at_s
                ((find_all_arbitrage_paths_two lib g s path.steps).0 k),
            same,
          )))

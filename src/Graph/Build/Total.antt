-- ===== src/Graph/Build/Total.antt =====
-- Building the graph finds every node that it looks for.
use mathlib.Core.Path.{subst}
use base_buster.Prelude.{
  ℕ, suc, ◌≡◌, refl, sym, ◌∙◌, inl, inr, Bool, true, List, [], ◌∷◌, some, Outcome, ok, ◌==◌,
  contains, arith, Bool-cases, In, In-append_left, In-append_right, eq_self, ==_iff,
}
use base_buster.Pool.{Address, Pool, balancer_v2, curve_tri_crypto, same_type}
use base_buster.Graph.Library.{UnGraph}
use base_buster.Graph.Build.{
  find_node, Building, add_token, add_tokens, join, join_rest, join_pairs, nonzero_balances,
  add_simple_pool_to_graph, add_curve_pool_to_graph, add_balancer_pool_to_graph, add_pool_to_graph,
  build_pools, build_graph, with_graph,
}

pub find_node-In :
    (token : Address) (weights : List Address) (k : ℕ)
    → In token weights
    → (i : ℕ) × (find_node token weights k ≡ some i)
unfolding find_node
find_node-In token [] k h = absurd h
find_node-In token (w ∷ weights) k h = elim (Bool-cases (w == token)) [
  | inl e ↦ (k, rw (e, find_node) refl)
  | inr e ↦ elim h [
    | inl same ↦ let s = eq_self token in absurd (ground arith)
    | inr rest ↦ let (i, f) = find_node-In token weights (suc k) rest in (i, rw (e, find_node) f)
  ]
]

module _ {G : Type 0} (lib : UnGraph G) where
  -- Each inserted token has a node.
  abbrev Known : Building G → Type 0
  Known b = (t : Address) → contains t b.inserted_nodes ≡ true → In t (lib.nodes b.graph)

  -- A step that returns, keeping the nodes.
  abbrev Keeps : G → Outcome G → Type 0
  Keeps g m = (h : G) × (m ≡ ok h) × (lib.nodes h ≡ lib.nodes g)

  join-Keeps :
      (pool : Pool) (g : G) (a c : Address)
      → In a (lib.nodes g)
      → In c (lib.nodes g)
      → Keeps g (join lib pool g a c)
  unfolding join
  join-Keeps pool g a c m n =
      let (i, e) = find_node-In a (lib.nodes g) 0 m in
      let (j, f) = find_node-In c (lib.nodes g) 0 n in
      (lib.add_edge g i j pool, simp (e, f), lib.nodes-add_edge g i j pool)

  -- All tokens of a list have nodes.
  abbrev Noded : G → List Address → Type 0
  Noded g tokens = (t : Address) → In t tokens → In t (lib.nodes g)

  Noded-Keeps :
      (g h : G) (tokens : List Address)
      → lib.nodes h ≡ lib.nodes g
      → Noded g tokens
      → Noded h tokens
  Noded-Keeps g h tokens e n t m = subst (In t) (sym e) (n t m)

  join_rest-Keeps :
      (keep : Address → Address → Bool) (pool : Pool) (g : G) (a : Address) (tokens : List Address)
      → In a (lib.nodes g)
      → Noded g tokens
      → Keeps g (join_rest lib keep pool g a tokens)
  unfolding join_rest
  join_rest-Keeps keep pool g a [] m n = (g, refl, refl)
  join_rest-Keeps keep pool g a (c ∷ tokens) m n = elim (Bool-cases (keep a c)) [
    | inl e ↦
        let (h, f, same) = join-Keeps pool g a c m (n c (inl refl)) in
        let later = Noded-Keeps g h tokens same (λ t k. n t (inr k)) in
        let (r, f', same') =
          join_rest-Keeps keep pool h a tokens (subst (In a) (sym same) m) later in
        (r, rw (e, join_rest) (rw f f'), same' ∙ same)
    | inr e ↦
        let (r, f', same') = join_rest-Keeps keep pool g a tokens m (λ t k. n t (inr k)) in
        (r, rw (e, join_rest) f', same')
  ]

  join_pairs-Keeps :
      (keep : Address → Address → Bool) (pool : Pool) (g : G) (tokens : List Address)
      → Noded g tokens
      → Keeps g (join_pairs lib keep pool g tokens)
  unfolding join_pairs
  join_pairs-Keeps keep pool g [] n = (g, refl, refl)
  join_pairs-Keeps keep pool g (a ∷ tokens) n =
      let (h, f, same) =
        join_rest-Keeps keep pool g a tokens (n a (inl refl)) (λ t k. n t (inr k)) in
      let later = Noded-Keeps g h tokens same (λ t k. n t (inr k)) in
      let (r, f', same') = join_pairs-Keeps keep pool h tokens later in (r, rw f f', same' ∙ same)

  -- Adding a token keeps the nodes and gives it one.
  abbrev Grows : Building G → Building G → Type 0
  Grows b c = (t : Address) → In t (lib.nodes b.graph) → In t (lib.nodes c.graph)

  add_token-Known :
      (b : Building G) (token : Address)
      → Known b
      → Known (add_token lib b token)
        × Grows b (add_token lib b token)
        × In token (lib.nodes (add_token lib b token).graph)
  unfolding add_token
  add_token-Known b token known = elim (Bool-cases (contains token b.inserted_nodes)) [
    | inl e ↦ rw (e, add_token) (known, λ t m. m, known token e)
    | inr e ↦
        let grown = lib.nodes-add_node b.graph token in
        let old : (t : Address)
            → In t (lib.nodes b.graph)
            → In t (lib.nodes (lib.add_node b.graph token)) =
          λ t m. subst (In t) (sym grown) (In-append_left t (lib.nodes b.graph) (token ∷ []) m) in
        let new : In token (lib.nodes (lib.add_node b.graph token)) =
          subst (In token) (sym grown)
            (In-append_right token (lib.nodes b.graph) (token ∷ []) (inl refl)) in
        rw (e, add_token)
          (
            λ t m. elim (Bool-cases (t == token)) [
              | inl s ↦
                  subst (λ z. In z (lib.nodes (lib.add_node b.graph token)))
                    (sym ((==_iff t token).0 s)) new
              | inr s ↦ old t (known t (simp s at m))
            ],
            old,
            new,
          )
  ]

  add_tokens-Known :
      (b : Building G) (tokens : List Address)
      → Known b
      → Known (add_tokens lib b tokens)
        × Grows b (add_tokens lib b tokens)
        × Noded (add_tokens lib b tokens).graph tokens
  unfolding add_tokens
  add_tokens-Known b [] known = (known, λ t m. m, λ t m. absurd m)
  add_tokens-Known b (token ∷ tokens) known =
      let (k, grows, here) = add_token-Known b token known in
      let (k', grows', rest) = add_tokens-Known (add_token lib b token) tokens k in
      (
        k',
        λ t m. grows' t (grows t m),
        λ t m. elim m [
          | inl e ↦
              subst (λ z. In z (lib.nodes (add_tokens lib (add_token lib b token) tokens).graph))
                (sym e) (grows' token here)
          | inr n ↦ rest t n
        ],
      )

  -- A step of the construction returns and keeps the invariant.
  abbrev Returns : Outcome (Building G) → Type 0
  Returns m = (c : Building G) × (m ≡ ok c) × Known c

  pairs-Returns :
      (keep : Address → Address → Bool) (pool : Pool) (b : Building G) (tokens : List Address)
      → Known b
      → Noded b.graph tokens
      → Returns (with_graph lib b (join_pairs lib keep pool b.graph tokens))
  pairs-Returns keep pool b tokens known n =
      let (h, f, same) = join_pairs-Keeps keep pool b.graph tokens n in
      (
        record { graph = h; inserted_nodes = b.inserted_nodes },
        rw f refl,
        λ t m. subst (In t) (sym same) (known t m),
      )

  add_pool-Returns :
      (b : Building G) (pool : Pool) → Known b → Returns (add_pool_to_graph lib b pool)
  unfolding add_pool_to_graph add_balancer_pool_to_graph add_curve_pool_to_graph
      add_simple_pool_to_graph
  add_pool-Returns b pool known =
      let (k, _, n) = add_tokens-Known b pool.tokens known in
      let many = add_tokens lib b pool.tokens in
      let (k0, _, m0) = add_token-Known b pool.token0_address known in
      let one = add_token lib b pool.token0_address in
      let (k1, grows, m1) = add_token-Known one pool.token1_address k0 in
      let two = add_token lib one pool.token1_address in
      let (h, f, same) =
        join-Keeps pool two.graph pool.token0_address pool.token1_address
          (grows pool.token0_address m0) m1 in
      elim (Bool-cases (same_type pool.pool_type balancer_v2)) [
        | inl e ↦
            rw (e, add_pool_to_graph)
              (pairs-Returns (nonzero_balances lib pool) pool many pool.tokens k n)
        | inr e ↦ elim (Bool-cases (same_type pool.pool_type curve_tri_crypto)) [
          | inl g ↦
              rw (e, add_pool_to_graph)
                (rw g (pairs-Returns (λ a c. true) pool many pool.tokens k n))
          | inr g ↦
              rw (e, add_pool_to_graph)
                (rw g (
                  record { graph = h; inserted_nodes = two.inserted_nodes },
                  rw f refl,
                  λ t m. subst (In t) (sym same) (k1 t m),
                ))
        ]
      ]

  build_pools-Returns :
      (b : Building G) (pools : List Pool) → Known b → Returns (build_pools lib b pools)
  unfolding build_pools
  build_pools-Returns b [] known = (b, refl, known)
  build_pools-Returns b (pool ∷ pools) known =
      let (c, e, k) = add_pool-Returns b pool known in
      let (d, e', k') = build_pools-Returns c pools k in (d, rw e e', k')

-- Building the graph never panics: for every list of pools, each node that it looks up is there.
pub build_graph_total :
    {G : Type 0} (lib : UnGraph G) (pools : List Pool) → (g : G) × (build_graph lib pools ≡ ok g)
unfolding build_graph
build_graph_total {G} lib pools =
    let empty : Building G = record { graph = lib.new_undirected; inserted_nodes = [] } in
    let (b, e, k) = build_pools-Returns lib empty pools (λ t m. cc) in (b.graph, rw e refl)

-- ===== src/Tests/Running.antt =====
-- A run of the workers, from a header to a transaction.
use base_buster.Prelude.{ℕ, ◌≡◌, ◌≢◌, ◌≤◌, ◌+◌, ◌⊎◌, [], ◌∷◌, some, ok, All, List, Option}
use base_buster.Ignition.{State, versions}
use base_buster.Ignition.Workers.{ended, search_turn, simulate_turn, send_turn}
use base_buster.Ignition.Steps.{Step, Reach, here, later, quoted_on}
use base_buster.Pool.{Address}
use base_buster.Ignition.Drains.{
  now, now-Sees, Drained, Panics, no_loop_ends, runs_drain, runs_bounded,
}
use base_buster.Ignition.Progress.{Works, WorkTurn, idle, works, load}
use base_buster.Ignition.Replay.{Replayed, Reach-Replayed}
use base_buster.Ignition.Order.{Ordered, Reach-Ordered}
use base_buster.Filter.{get_top_volume_tokens}
use base_buster.Ignition.EndToEnd.{Traded, posted-Traded}
use base_buster.Tests.Starting.{outside, first_sender, top_tokens, given_pools, launch, launches}
use base_buster.Tests.Turns.{
  starts, searches, simulates, sends, heard_searching, services, reads, stored, stores,
  searched_paths, header, launched, heard, searched, posted, thread,
}

Reach-heard : Reach services launch heard
Reach-heard =
    later (later here (Step.start (now launched) (now-Sees launched) starts)) (Step.block header)

Reach-posted : Reach services launch posted
Reach-posted =
    later
      (later (later Reach-heard (Step.search (now heard) (now-Sees heard) searches))
        (Step.simulate (now searched) (now-Sees searched) simulates))
      (Step.send sends)

Reach-Ordered_example : Ordered launch posted
Reach-Ordered_example = Reach-Ordered services launch Reach-posted

no_loop_ends_example :
    (search_turn services (now posted) posted ≢ ended)
    × (simulate_turn services (now posted) posted ≢ ended)
    × (send_turn services posted ≢ ended)
no_loop_ends_example = no_loop_ends services launch (now posted) Reach-posted

runs_drain_example :
    (k : ℕ) × (t : State) × Works services heard k t
    × (k ≤ load heard)
    × (Drained t ⊎ Panics services t)
runs_drain_example = runs_drain services launch thread Reach-heard heard_searching

one_turn : Works services heard 1 searched
one_turn = works idle (WorkTurn.searches (now heard) (now-Sees heard) searches)

runs_bounded_example :
    (1 + load searched ≤ load heard)
    × ((Drained searched ⊎ Panics services searched) ⊎ ((u : State) × WorkTurn services searched u))
runs_bounded_example = runs_bounded services launch thread Reach-heard heard_searching one_turn

posted-Traded_example :
    (top : List Address) × (file' : Option (List Address)) × (get_top_volume_tokens outside.request
        outside.from_str outside.to_json outside.from_json
        (some top_tokens)
        4000
      ≡ ok (top, file'))
    × All (Traded outside services given_pools launch (versions posted) top) posted.posted
posted-Traded_example =
    posted-Traded outside services (some top_tokens) given_pools 3 4 (4 ∷ []) first_sender launch
      posted launches Reach-posted

-- The quote stores, and then the simulator's turn ends.
Reach-quoted : Reach services launch (quoted_on searched stored)
Reach-quoted =
    let (path, out, block, rest, e) = searched_paths in
    later (later Reach-heard (Step.search (now heard) (now-Sees heard) searches))
      (Step.quote reads e stores)

Reach-Replayed_example : Replayed services launch (quoted_on searched stored)
Reach-Replayed_example = Reach-Replayed services launch Reach-quoted

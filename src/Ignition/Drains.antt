-- ===== src/Ignition/Drains.antt =====
-- From every reachable state the three workers come to the end of their events, or one of them panics.
use base_buster.Prelude.{
  ℕ, zero, suc, ◌+◌, ◌≤◌, ◌≡◌, ◌≢◌, refl, ap, ◌∙◌, ◌⊎◌, inl, inr, List, [], some, arith,
  Option-cases,
}
use base_buster.Ignition.{Event, Services, Launch, State, View, Sees, versions, Searching}
use base_buster.Ignition.Workers.{Turn, ended, panics, search_turn, simulate_turn, send_turn}
use base_buster.Ignition.Steps.{Step, Reach, search, quote, simulate, send}
use base_buster.Ignition.Turns.{search_turn-next, simulate_turn-next, send_turn-next}
use base_buster.Ignition.Channels.{Typed, Step-Typed, Reach-Typed}
use base_buster.Ignition.Progress.{
  Serves, search_turn-Serves, simulate_turn-Serves, send_turn-Serves, WorkTurn, searches, simulates,
  sends, Works, idle, works, stores, load, Works-load, WorkTurn-load,
}

-- A turn whose reads all find the present database.
abbrev pub now : State → View
now s = record { swap_db = λ i a t k f. s.db; quote_db = λ q. s.db }

pub now-Sees : (s : State) → Sees (versions s) (now s)
now-Sees s = record { swaps_in = λ i a t k f. inl refl; quotes_in = λ q. inl refl }

abbrev pub Drained : State → Type 0
Drained s = (s.addresses ≡ []) × (s.paths ≡ []) × (s.profitable ≡ [])

not_ended : (events : List Event) (r : Turn) → Serves events r → r ≢ ended
not_ended events r (inl (_, e)) bad = cc
not_ended events r (inr (inl e)) bad = cc
not_ended events r (inr (inr (t, e))) bad = cc

module _ (o : Services) where
  abbrev pub Panics : State → Type 0
  Panics s =
      (search_turn o (now s) s ≡ panics)
      ⊎ ((simulate_turn o (now s) s ≡ panics) ⊎ (send_turn o s ≡ panics))

  WorkTurn-searching :
      {s t : State} {w : Searching}
      → WorkTurn o s t
      → s.searching ≡ some w
      → (w' : Searching) × (t.searching ≡ some w')
  WorkTurn-searching {s} (searches v sees g) e =
      let (_, _, _, _, (after, found), _, _, _, f) = search_turn-next o v s g in
      (after, ap (λ z. z.searching) f)
  WorkTurn-searching {s} {t} {w} (simulates v sees g) e =
      let (_, _, _, _, r, _, _, f) = simulate_turn-next o v s g in (w, ap (λ z. z.searching) f ∙ e)
  WorkTurn-searching {s} {t} {w} (sends g) e =
      let (_, _, _, _, r, _, _, f) = send_turn-next o s g in (w, ap (λ z. z.searching) f ∙ e)

  module _ (l : Launch) where
    WorkTurn-Step : {s t : State} → WorkTurn o s t → Step o l s t
    WorkTurn-Step (searches v sees g) = search v sees g
    WorkTurn-Step (simulates v sees g) = simulate v sees g
    WorkTurn-Step (sends g) = send g

    progress :
        (s : State) (w : Searching)
        → Typed s
        → s.searching ≡ some w
        → (Drained s ⊎ Panics s) ⊎ ((t : State) × WorkTurn o s t)
    progress s w h e = elim (search_turn-Serves o (now s) s w h e) [
      | inr (inl p) ↦ inl (inr (inl p))
      | inr (inr (t, g)) ↦ inr (t, searches (now s) (now-Sees s) g)
      | inl (no_addresses, _) ↦ elim (simulate_turn-Serves o (now s) s h) [
        | inr (inl p) ↦ inl (inr (inr (inl p)))
        | inr (inr (t, g)) ↦ inr (t, simulates (now s) (now-Sees s) g)
        | inl (no_paths, _) ↦ elim (send_turn-Serves o s h) [
          | inr (inl p) ↦ inl (inr (inr (inr p)))
          | inr (inr (t, g)) ↦ inr (t, sends g)
          | inl (none_profitable, _) ↦ inl (inl (no_addresses, no_paths, none_profitable))
        ]
      ]
    ]

    drains_within :
        (n : ℕ) (s t : State) (w : Searching) (k : ℕ)
        → load t ≤ n
        → Works o s k t
        → Typed t
        → t.searching ≡ some w
        → (j : ℕ) × (u : State) × Works o s j u × (Drained u ⊎ Panics u)
    drains_within zero s t w k le r h e = elim (progress t w h e) [
      | inl done ↦ (k, t, r, done)
      | inr (u, turn) ↦ absurd (omega (arith, WorkTurn-load o turn))
    ]
    drains_within (suc n) s t w k le r h e = elim (progress t w h e) [
      | inl done ↦ (k, t, r, done)
      | inr (u, turn) ↦
          let (w', e') = WorkTurn-searching turn e in
          drains_within n s u w' (suc k) (omega (arith, WorkTurn-load o turn)) (works r turn)
            (Step-Typed o l (WorkTurn-Step turn) h) e'
    ]

    Works-keeps :
        {s : State} {k : ℕ} {t : State} {w : Searching}
        → Works o s k t
        → Typed s
        → s.searching ≡ some w
        → Typed t × ((w' : Searching) × (t.searching ≡ some w'))
    Works-keeps {w} idle h e = (h, (w, e))
    Works-keeps (stores reads r q stored) h e =
        let (h', searching) = Works-keeps r h e in
        (Step-Typed o l (quote reads q stored) h', searching)
    Works-keeps (works r turn) h e =
        let (h', (w', e')) = Works-keeps r h e in
        (Step-Typed o l (WorkTurn-Step turn) h', WorkTurn-searching turn e')

    -- In whatever order the searcher, the simulator and the sender take turns from a reachable state
    -- in which the searcher runs, with no further header and whatever the quotes store: the turns and the load that is left are
    -- together at most the load at the start, and the run either can go on, or has come to a state where
    -- all three channels are empty or where one of the three workers panics.
    pub runs_bounded :
        {s t : State} {k : ℕ} (w : Searching)
        → Reach o l s
        → s.searching ≡ some w
        → Works o s k t
        → (k + load t ≤ load s) × ((Drained t ⊎ Panics t) ⊎ ((u : State) × WorkTurn o t u))
    runs_bounded {s} {t} w r e run =
        let (h, (w', e')) = Works-keeps run (Reach-Typed o l r) e in
        (Works-load o run, progress t w' h e')

    -- From every reachable state in which the searcher runs, the searcher, the simulator and the
    -- sender can come, within as many turns as the load of the state and with no further header, to a
    -- state where all three channels are empty or where one of the three workers panics.
    pub runs_drain :
        {s : State} (w : Searching)
        → Reach o l s
        → s.searching ≡ some w
        → (k : ℕ) × (t : State) × Works o s k t × (k ≤ load s) × (Drained t ⊎ Panics t)
    runs_drain {s} w r e =
        let (k, t, run, done) =
          drains_within (load s) s s w 0 (omega arith) idle (Reach-Typed o l r) e in
        (k, t, run, omega (arith, Works-load o run), done)

    -- In every reachable state, no event that a worker receives is of a kind that ends its loop.
    pub no_loop_ends :
        {s : State} (v : View)
        → Reach o l s
        → (search_turn o v s ≢ ended) × (simulate_turn o v s ≢ ended) × (send_turn o s ≢ ended)
    unfolding search_turn
    no_loop_ends {s} v r =
        let h = Reach-Typed o l r in
        (
          λ bad. elim (Option-cases s.searching) [
            | inl e ↦ let c = rw (e, search_turn) at bad in cc
            | inr (w, e) ↦ not_ended _ _ (search_turn-Serves o v s w h e) bad
          ],
          not_ended _ _ (simulate_turn-Serves o v s h),
          not_ended _ _ (send_turn-Serves o s h),
        )

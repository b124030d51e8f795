-- ===== src/Harness/Partition.antt =====
-- The harness of raft/config.go takes servers off the network and puts them back: which requests can
-- get through.
use golang_deep_distributed.Prelude.{
  ℕ, ◌<◌, ◌≡◌, refl, sym, ap, ◌∙◌, subst, inl, inr, false, ◌&&◌, Option, none, some, List, [], ◌∷◌,
  arith, Option-cases, ◌>>=◌, get_elem?,
}
use golang_deep_distributed.Labrpc.Network.{
  Network, flag_at, pointer_at, failure, Draws, Event, Fate, process_req,
}
use golang_deep_distributed.Harness.Config.{Config}
use golang_deep_distributed.Harness.Servers.{connect, disconnect}
use golang_deep_distributed.Harness.Ends.{is_on, end_name}
use golang_deep_distributed.Harness.Wiring.{IsWired, connect-IsWired, disconnect-IsWired}

-- A request that reaches no server.
abbrev pub unsent : Fate
unsent = record { dispatched = none; sent = some failure; delayed = false; counted = 0 }

process_req-disabled :
    (x : ℕ) (rn : Network) (draws : Draws) (events : List Event) (after : Network)
    → flag_at x rn.enabled ≡ false
    → process_req x rn draws events after ≡ unsent
unfolding process_req
process_req-disabled x rn draws events after off =
    elim (Option-cases (pointer_at x rn.connections)) [
      | inl e ↦ ground (arith, e)
      | inr (name, e) ↦ elim (Option-cases (pointer_at name rn.servers)) [
        | inl f ↦ ground (arith, e, f)
        | inr (server, f) ↦ ground (arith, e, f, off)
      ]
    ]

pub data Move : Type 0 where
  attach : ℕ → Move
  detach : ℕ → Move

abbrev pub server_of : Move → ℕ
server_of (attach i) = i
server_of (detach i) = i

-- The servers that the moves name are servers of the harness.
abbrev pub AreServers : ℕ → List Move → Type 0
AreServers n [] = Unit
AreServers n (m ∷ moves) = (server_of m < n) × AreServers n moves

module _ {C B : Type 0} where
  abbrev pub move : Move → Config C B → Option (Config C B)
  move (attach i) cfg = connect i cfg
  move (detach i) cfg = disconnect i cfg

  abbrev pub run_moves : List Move → Config C B → Option (Config C B)
  run_moves [] cfg = some cfg
  run_moves (m ∷ moves) cfg = move m cfg >>= run_moves moves

  -- Every server has been started once, so that it has its names.
  abbrev pub IsStarted : Config C B → Type 0
  IsStarted cfg =
      (i : ℕ) → i < cfg.n → (names : List ℕ) × (get_elem? cfg.endnames i ≡ some (some names))

  move-IsWired :
      (m : Move) (cfg : Config C B)
      → IsWired cfg
      → IsStarted cfg
      → server_of m < cfg.n
      → (cfg' : Config C B) × (move m cfg ≡ some cfg')
        × IsWired cfg'
        × (cfg'.n ≡ cfg.n)
        × (cfg'.endnames ≡ cfg.endnames)
  move-IsWired (attach i) cfg w started lt =
      let (names, mine) = started i lt in
      let (cfg', run, w', same, net) = connect-IsWired cfg i names w lt mine in
      (cfg', run, w', ap (λ c. c.n) same, ap (λ c. c.endnames) same)
  move-IsWired (detach i) cfg w started lt =
      let (cfg', run, w', same, net) = disconnect-IsWired cfg i w lt in
      (cfg', run, w', ap (λ c. c.n) same, ap (λ c. c.endnames) same)

  -- From a harness that is wired and whose servers have been started, any sequence of connects and
  -- disconnects of its servers runs without a fault, and then an end is enabled exactly if the servers at
  -- both sides are connected.
  pub run_moves-IsWired :
      (moves : List Move) (cfg : Config C B)
      → IsWired cfg
      → IsStarted cfg
      → AreServers cfg.n moves
      → (cfg' : Config C B) × (run_moves moves cfg ≡ some cfg') × IsWired cfg'
  run_moves-IsWired [] cfg w started all = (cfg, refl, w)
  run_moves-IsWired (m ∷ moves) cfg w started all =
      let (next, run, w', same_n, same_ends) = move-IsWired m cfg w started all.0 in
      let (cfg', runs, w'') =
        run_moves-IsWired moves next w'
          (λ i lt.
            let (names, at) = started i (ground (arith, lt, same_n)) in
            (names, ap (λ es. get_elem? es i) same_ends ∙ at))
          (subst (λ n. AreServers n moves) (sym same_n) all.1) in
      (cfg', ground (arith, run, runs), w'')

  -- After any sequence of connects and disconnects from a harness that is wired and whose servers have
  -- been started, a request over an end of which the server on one side is not connected is answered with
  -- a failure and reaches no server, whatever the network does.
  pub run_moves-process_req :
      (moves : List Move) (cfg cfg' : Config C B) (a b x : ℕ) (draws : Draws) (events : List Event)
      (after : Network)
      → IsWired cfg
      → IsStarted cfg
      → AreServers cfg.n moves
      → run_moves moves cfg ≡ some cfg'
      → end_name cfg'.endnames a b ≡ some x
      → (is_on cfg'.connected a && is_on cfg'.connected b) ≡ false
      → process_req x cfg'.net draws events after ≡ unsent
  run_moves-process_req moves cfg cfg' a b x draws events after w started all run at off =
      let (cfg2, run2, w2) = run_moves-IsWired moves cfg w started all in
      let same : cfg2 ≡ cfg' = ground (arith, run, run2) in
      let w' : IsWired cfg' = subst IsWired same w2 in
      process_req-disabled x cfg'.net draws events after (w'.wired a b x at ∙ off)

-- ===== src/Harness/Wiring.antt =====
-- What `connect` and `disconnect` of raft/config.go keep: an end is enabled exactly if the servers at
-- both sides are connected.
use golang_deep_distributed.Prelude.{
  ℕ_discrete, ℕ, zero, suc, ◌<◌, ◌≡◌, refl, ◌∙◌, subst, ◌≢◌, true, false, ◌&&◌, Option, none, some,
  List, [], ◌∷◌, arith, ◌==◌, if◌then◌else◌, length, get_elem?, set, length-set, get_elem?_lt,
}
use golang_deep_distributed.Prelude.Dict.{nat_eq}
use golang_deep_distributed.Labrpc.Network.{flag_at}
use golang_deep_distributed.Harness.Config.{Config}
use golang_deep_distributed.Harness.Servers.{connect, disconnect, disconnect_outgoing, names_of}
use golang_deep_distributed.Harness.Ends.{
  is_on, end_name, IsSame, connect_outgoing_lem, connect_incoming_lem, IsSame-trans,
  closes_outgoing, disconnect_outgoing_lem, disconnect_incoming_lem,
}
use golang_deep_distributed.Harness.Touched.{
  is_on-set, end_name-get_elem?, AreDistinct, opens_outgoing_lem, opens_incoming_lem,
  closes_outgoing_lem, closes_incoming_lem,
}

end_name-nil :
    (endnames : List (Option (List ℕ))) (a b : ℕ)
    → get_elem? endnames a ≡ some none
    → end_name endnames a b ≡ none
end_name-nil [] a b at = refl
end_name-nil (e ∷ endnames) zero b at = ground (arith, at)
end_name-nil (e ∷ endnames) (suc a) b at = end_name-nil endnames a b at

module _ {C B : Type 0} where
  -- Every server has its names or none yet, a connected one has them, and an end is enabled exactly if
  -- the servers at both sides are connected.
  pub record IsWired (cfg : Config C B) : Type 0 where
    pub servers : length cfg.connected ≡ cfg.n
    pub slices : length cfg.endnames ≡ cfg.n
    pub sizes :
        (a : ℕ) (names : List ℕ)
        → get_elem? cfg.endnames a ≡ some (some names)
        → length names ≡ cfg.n
    pub named :
        (a : ℕ)
        → is_on cfg.connected a ≡ true
        → (names : List ℕ) × (get_elem? cfg.endnames a ≡ some (some names))
    pub distinct : AreDistinct cfg.endnames
    pub wired :
        (a b x : ℕ)
        → end_name cfg.endnames a b ≡ some x
        → flag_at x cfg.net.enabled ≡ (is_on cfg.connected a && is_on cfg.connected b)

  -- A server below the number of servers has an end to each that is not nil.
  has_end :
      (cfg : Config C B) (a b : ℕ) (names : List ℕ)
      → IsWired cfg
      → get_elem? cfg.endnames a ≡ some (some names)
      → b < cfg.n
      → end_name cfg.endnames a b ≢ none
  has_end cfg a b names w at lt missing =
      let (x, there) = get_elem?_lt names b (ground (arith, lt, w.sizes a names at)) in
      absurd (ground (arith, end_name-get_elem? cfg.endnames a b at, there, missing))

  -- A server that has its names is connected without a fault; nothing else changes.
  pub connect-IsWired :
      (cfg : Config C B) (i : ℕ) (names : List ℕ)
      → IsWired cfg
      → i < cfg.n
      → get_elem? cfg.endnames i ≡ some (some names)
      → (cfg' : Config C B) × (connect i cfg ≡ some cfg')
        × IsWired cfg'
        × (cfg' ≡ record cfg { connected = set cfg.connected i true; net = cfg'.net })
        × IsSame cfg.net cfg'.net
  unfolding connect
  connect-IsWired cfg i names w lt mine =
      let on = set cfg.connected i true in
      let (was, at) = get_elem?_lt cfg.connected i (ground (arith, lt, w.servers)) in
      let len : length on ≡ cfg.n = length-set cfg.connected i true ∙ w.servers in
      let is : (a : ℕ) → is_on on a ≡ (if i == a then true else is_on cfg.connected a) =
        λ a. is_on-set cfg.connected i a true (ground (arith, lt, w.servers)) in
      let named' : (a : ℕ)
          → is_on on a ≡ true
          → (ns : List ℕ) × (get_elem? cfg.endnames a ≡ some (some ns)) =
        λ a h. elim (ℕ_discrete i a) [
          | yes same ↦ (names, subst (λ k. get_elem? cfg.endnames k ≡ some (some names)) same mine)
          | no ne ↦ w.named a (ground (arith, is a, ne, h))
        ] in
      let (net1, run1, same1, flags1) =
        connect_outgoing_lem on names cfg.net (ground (arith, len, w.sizes i names mine)) in
      let (net2, run2, same2, flags2) =
        connect_incoming_lem i on cfg.endnames net1 (ground (arith, len, w.slices))
          (λ a h. has_end cfg a i (named' a h).0 w (named' a h).1 lt) in
      (
        record cfg { connected = on; net = net2 },
        ground (arith, at, mine, run1, run2),
        record {
          servers = len;
          slices = w.slices;
          sizes = w.sizes;
          named = named';
          distinct = w.distinct;
          wired = λ a b x h. ground (
            arith,
            flags2 x,
            flags1 x,
            is a,
            is b,
            w.wired a b x h,
            opens_outgoing_lem cfg.endnames w.distinct i mine on a b x h,
            opens_incoming_lem cfg.endnames w.distinct i on a b x h,
          );
        },
        refl,
        IsSame-trans cfg.net net1 net2 same1 same2,
      )

  closes_names_of :
      (cfg : Config C B) (i : ℕ) (e : Option (List ℕ)) (a b x : ℕ)
      → IsWired cfg
      → get_elem? cfg.endnames i ≡ some e
      → end_name cfg.endnames a b ≡ some x
      → closes_outgoing (names_of e) x ≡ (a == i)
  closes_names_of cfg i (some names) a b x w mine h =
      closes_outgoing_lem cfg.endnames w.distinct i mine a b x h
  closes_names_of cfg i none a b x w mine h = elim (ℕ_discrete a i) [
    | yes same ↦ absurd (
        ground (
          arith,
          end_name-nil cfg.endnames i b mine,
          subst (λ c. end_name cfg.endnames c b ≡ some x) same h,
        ))
    | no ne ↦ ground (arith, ne)
  ]

  -- A server is disconnected without a fault; nothing else changes.
  pub disconnect-IsWired :
      (cfg : Config C B) (i : ℕ)
      → IsWired cfg
      → i < cfg.n
      → (cfg' : Config C B) × (disconnect i cfg ≡ some cfg')
        × IsWired cfg'
        × (cfg' ≡ record cfg { connected = set cfg.connected i false; net = cfg'.net })
        × IsSame cfg.net cfg'.net
  unfolding disconnect
  disconnect-IsWired cfg i w lt =
      let on = set cfg.connected i false in
      let (was, at) = get_elem?_lt cfg.connected i (ground (arith, lt, w.servers)) in
      let (e, mine) = get_elem?_lt cfg.endnames i (ground (arith, lt, w.slices)) in
      let is : (a : ℕ) → is_on on a ≡ (if i == a then false else is_on cfg.connected a) =
        λ a. is_on-set cfg.connected i a false (ground (arith, lt, w.servers)) in
      let net1 = disconnect_outgoing (names_of e) cfg.net in
      let (same1, flags1) = disconnect_outgoing_lem (names_of e) cfg.net in
      let (net2, run2, same2, flags2) =
        disconnect_incoming_lem i cfg.endnames net1
          (λ a names found. ground (arith, lt, w.sizes a names found)) in
      (
        record cfg { connected = on; net = net2 },
        ground (arith, at, mine, run2),
        record {
          servers = length-set cfg.connected i false ∙ w.servers;
          slices = w.slices;
          sizes = w.sizes;
          named = λ a h. w.named a (ground (arith, is a, h));
          distinct = w.distinct;
          wired = λ a b x h. ground (
            arith,
            flags2 x,
            flags1 x,
            is a,
            is b,
            w.wired a b x h,
            closes_names_of cfg i e a b x w mine h,
            closes_incoming_lem cfg.endnames w.distinct i a b x h,
          );
        },
        refl,
        IsSame-trans cfg.net net1 net2 same1 same2,
      )

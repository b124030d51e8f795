-- ===== src/Harness/Service.antt =====
-- kvraft/config.go: which servers of the key/value service the harness connects, and its partitions.
--
-- The functions change nothing but the network, so it is their state, and the names of the servers' ends
-- are a parameter. An index out of range is `none`.
use golang_deep_distributed.Prelude.{
  ℕ, ◌+◌, Bool, true, false, Option, none, some, List, [], ◌∷◌, ◌>>=◌, get_elem?,
}
use golang_deep_distributed.Labrpc.Network.{Network, enable}
use golang_deep_distributed.Harness.Servers.{names_of}

-- The loop over the outgoing ends to the servers in a list.
unfoldable pub switch_outgoing : Bool → List ℕ → List ℕ → Network → Option Network
switch_outgoing on names [] rn = some rn
switch_outgoing on names (j ∷ to) rn =
    let rest = λ (rn' : Network). switch_outgoing on names to rn' in
    get_elem? names j >>= λ name. rest (enable name on rn)

module _ (endnames : List (Option (List ℕ))) where
  -- The loop of `connectUnlocked` over the incoming ends.
  unfoldable pub connect_from : ℕ → List ℕ → Network → Option Network
  connect_from i [] rn = some rn
  connect_from i (j ∷ to) rn =
      let rest = λ (rn' : Network). connect_from i to rn' in
      get_elem? endnames j >>= λ e. get_elem? (names_of e) i >>= λ name. rest (enable name true rn)

  unfoldable pub connect_unlocked : ℕ → List ℕ → Network → Option Network
  unfolding switch_outgoing connect_from
  connect_unlocked i to rn =
      get_elem? endnames i >>= λ e. switch_outgoing true (names_of e) to rn >>= connect_from i to

  -- The loop of `disconnectUnlocked` over the incoming ends, from position `k` of the list on: the test
  -- for nil looks at the server with the number of the position.
  unfoldable pub disconnect_from : ℕ → ℕ → List ℕ → Network → Option Network
  disconnect_from i k [] rn = some rn
  disconnect_from i k (j ∷ from) rn =
      let rest = λ (rn' : Network). disconnect_from i (k + 1) from rn' in
      get_elem? endnames k >>= λ g. elim g [
        | none ↦ rest rn
        | some _ ↦ get_elem? endnames j >>= λ e.
            get_elem? (names_of e) i >>= λ name. rest (enable name false rn)
      ]

  unfoldable pub disconnect_unlocked : ℕ → List ℕ → Network → Option Network
  unfolding switch_outgoing disconnect_from
  disconnect_unlocked i from rn = get_elem? endnames i >>= λ e.
      (elim e [ none ↦ some rn | some names ↦ switch_outgoing false names from rn ])
      >>= disconnect_from i 0 from

  -- A loop of `partition`: the servers of one part are taken from the other part and put together.
  unfoldable pub separate : List ℕ → List ℕ → List ℕ → Network → Option Network
  unfolding connect_unlocked disconnect_unlocked
  separate own others [] rn = some rn
  separate own others (i ∷ rest) rn =
      let again = λ (rn' : Network). separate own others rest rn' in
      disconnect_unlocked i others rn >>= λ rn1. connect_unlocked i own rn1 >>= again

  unfoldable pub partition : List ℕ → List ℕ → Network → Option Network
  unfolding separate
  partition p1 p2 rn = separate p1 p2 p1 rn >>= separate p2 p1 p2

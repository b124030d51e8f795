-- ===== src/Harness/Servers.antt =====
-- raft/config.go: `connect`, `disconnect`, `crash1`, `start1` and `make_config`.
--
-- The random names of the ends, the pointers that a constructor returns and the network's server are
-- arguments. A fatal error and an index out of range are `none`. A slice of names is nil or has one name
-- for each server.
use golang_deep_distributed.Prelude.{
  ℕ, zero, suc, ◌+◌, Bool, true, false, not, Option, none, some, List, [], ◌∷◌, map, if◌then◌else◌,
  ◌>>=◌, length, get_elem?, set, replicate,
}
use golang_deep_distributed.Persister.{
  Gob, Persister, make_persister, copy, save_raft_state, read_raft_state,
}
use golang_deep_distributed.Labrpc.Network.{
  Network, make_network, make_end, add_server, delete_server, enable, set_reliable, set_long_delays,
  connect as connect_end,
}
use golang_deep_distributed.Raft.State.{Raft, Value}
use golang_deep_distributed.Raft.Persist.{make}
use golang_deep_distributed.Raft.Leader.{kill}
use golang_deep_distributed.Harness.Config.{Config}

-- The loops of `connect` over the outgoing and the incoming ends.
unfoldable pub connect_outgoing : List Bool → List ℕ → Network → Option Network
connect_outgoing [] names rn = some rn
connect_outgoing (on ∷ connected) [] rn = if on then none else connect_outgoing connected [] rn
connect_outgoing (on ∷ connected) (name ∷ names) rn =
    connect_outgoing connected names (if on then enable name true rn else rn)

unfoldable pub connect_incoming : ℕ → List Bool → List (Option (List ℕ)) → Network → Option Network
connect_incoming i [] endnames rn = some rn
connect_incoming i (on ∷ connected) [] rn = if on then none else connect_incoming i connected [] rn
connect_incoming i (on ∷ connected) (e ∷ endnames) rn =
    let rest = λ (rn' : Network). connect_incoming i connected endnames rn' in
    if on
    then (e >>= λ names. get_elem? names i >>= λ name. rest (enable name true rn))
    else rest rn

-- The loops of `disconnect`.
unfoldable pub disconnect_outgoing : List ℕ → Network → Network
disconnect_outgoing [] rn = rn
disconnect_outgoing (name ∷ names) rn = disconnect_outgoing names (enable name false rn)

unfoldable pub disconnect_incoming : ℕ → List (Option (List ℕ)) → Network → Option Network
disconnect_incoming i [] rn = some rn
disconnect_incoming i (none ∷ endnames) rn = disconnect_incoming i endnames rn
disconnect_incoming i (some names ∷ endnames) rn =
    let rest = λ (rn' : Network). disconnect_incoming i endnames rn' in
    get_elem? names i >>= λ name. rest (enable name false rn)

-- The loop of `start1` that makes the ends, from server `j` on; each has its pointer.
unfoldable pub make_ends : ℕ → List (ℕ × ℕ) → Network → Option Network
unfolding make_end connect_end
make_ends j [] rn = some rn
make_ends j ((name, pointer) ∷ names) rn =
    let rest = λ (rn' : Network). make_ends (j + 1) names rn' in
    make_end name pointer rn >>= λ rn'. rest (connect_end name j rn')

abbrev pub names_of : Option (List ℕ) → List ℕ
names_of none = []
names_of (some names) = names

module _ {C B : Type 0} where
  unfoldable pub connect : ℕ → Config C B → Option (Config C B)
  unfolding connect_outgoing connect_incoming
  connect i cfg = get_elem? cfg.connected i >>= λ was. get_elem? cfg.endnames i >>= λ e.
      let connected = set cfg.connected i true in
      connect_outgoing connected (names_of e) cfg.net >>= λ net.
      connect_incoming i connected cfg.endnames net >>= λ net'.
      some (record cfg { connected = connected; net = net' })

  unfoldable pub disconnect : ℕ → Config C B → Option (Config C B)
  unfolding disconnect_outgoing disconnect_incoming
  disconnect i cfg = get_elem? cfg.connected i >>= λ was. get_elem? cfg.endnames i >>= λ e.
      disconnect_incoming i cfg.endnames (disconnect_outgoing (names_of e) cfg.net) >>= λ net.
      some (record cfg { connected = set cfg.connected i false; net = net })

  unfoldable pub set_unreliable : Bool → Config C B → Config C B
  set_unreliable unrel cfg = record cfg { net = set_reliable (not unrel) cfg.net }

  unfoldable pub connect_all : ℕ → ℕ → Config C B → Option (Config C B)
  unfolding connect
  connect_all i zero cfg = some cfg
  connect_all i (suc n) cfg = connect i cfg >>= connect_all (i + 1) n

  -- The configuration that `make_config` starts with.
  unfoldable pub empty_config : Bool → ℕ → Config C B
  unfolding set_unreliable
  empty_config unreliable n =
      let cfg = set_unreliable unreliable (record {
        net = make_network;
        n = n;
        rafts = replicate n none;
        apply_err = replicate n false;
        connected = replicate n false;
        saved = replicate n none;
        endnames = replicate n none;
        logs = replicate n [];
        max_index = 0;
      }) in
      record cfg { net = set_long_delays true cfg.net }

  -- `cfg.saved[i]` is a pointer that the peer shares, if there is one, so what it points to is what the
  -- peer has saved.
  abbrev pub saved_by : Option (Raft C B) → Option (Persister B) → Option (Persister B)
  saved_by none ps = ps
  saved_by (some rf) ps = some rf.persister

  -- `rf.Kill()`, if there is a peer.
  abbrev pub kill_peer : Option (Raft C B) → Option (Unit {0})
  kill_peer none = some tt
  kill_peer (some rf) = kill rf >>= λ (rf', es). some tt

module _ {C B : Type 0} (gob : Gob (Value C) B) where
  -- A fresh persister with the Raft state of the old one.
  abbrev pub raft_state_only : Persister B → Persister B
  raft_state_only ps = save_raft_state (make_persister gob) (read_raft_state (copy gob ps))

  unfoldable pub crash1 : ℕ → Config C B → Option (Config C B)
  unfolding disconnect delete_server
  crash1 i cfg = disconnect i cfg >>= λ off. get_elem? off.rafts i >>= λ r.
      get_elem? off.saved i >>= λ ps. kill_peer r >>= λ _. some (record off {
        net = delete_server i off.net;
        rafts = set off.rafts i none;
        saved = set off.saved i (saved_by r ps >>= λ old. some (raft_state_only old));
      })

  -- `start1` with the names and pointers of the new ends and the server that is put on the network.
  unfoldable pub start1 : ℕ → List (ℕ × ℕ) → ℕ → Config C B → Option (Config C B)
  unfolding crash1 make_ends add_server copy make_persister
  start1 i names srv cfg = crash1 i cfg >>= λ off. get_elem? off.saved i >>= λ ps.
      make_ends 0 names off.net >>= λ net.
      let persister : Persister B = elim ps [
        | some old ↦ copy gob old
        | none ↦ make_persister gob
      ] in
      some (record off {
        net = add_server i srv net;
        endnames = set off.endnames i (some (map (λ (name, pointer). name) names));
        saved = set off.saved i (some persister);
        rafts = set off.rafts i (some (make gob off.n i persister));
      })

  -- The first loop of `make_config`: each server, from number `i` on, gets an empty log and is started, with
  -- its names and its pointer.
  unfoldable pub start_all : ℕ → List (List (ℕ × ℕ) × ℕ) → Config C B → Option (Config C B)
  unfolding start1
  start_all i [] cfg = some cfg
  start_all i ((names, srv) ∷ servers) cfg =
      start1 i names srv (record cfg { logs = set cfg.logs i [] }) >>= start_all (i + 1) servers

  unfoldable pub make_config : Bool → List (List (ℕ × ℕ) × ℕ) → Option (Config C B)
  unfolding start_all connect_all empty_config
  make_config unreliable servers =
      let n = length servers in start_all 0 servers (empty_config unreliable n) >>= connect_all 0 n

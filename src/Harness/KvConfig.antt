-- ===== src/Harness/KvConfig.antt =====
-- kvraft/config.go: the servers and clients of the key/value service that the harness starts, shuts down
-- and connects.
--
-- The random names of the ends, the pointers that a constructor returns, the network's servers and the
-- random numbers are arguments. A fatal error, an index out of range and the use of a nil pointer are
-- `none`.
use golang_deep_distributed.Prelude.{
  ℕ, zero, suc, ◌+◌, ◌-◌, ◌/◌, ◌%◌, Bool, true, false, not, Option, none, some, List, [], ◌∷◌, map,
  ltb, ◌==◌, if◌then◌else◌, ◌>>=◌, length, get_elem?, set, replicate, replicate,
}
use golang_deep_distributed.Prelude.Dict.{Dict, lookup, insert, delete, nat_eq}
use golang_deep_distributed.Persister.{
  Gob, Persister, make_persister, copy, raft_state_size, snapshot_size as saved_size,
}
use golang_deep_distributed.Labrpc.Network.{
  Network, make_network, add_server, delete_server, set_reliable,
}
use golang_deep_distributed.Raft.State.{Raft, Value as RaftValue, get_state}
use golang_deep_distributed.Kv.State.{Op, KvServer, Value}
use golang_deep_distributed.Kv.Apply.{start_kv_server, kill}
use golang_deep_distributed.Kv.Clerk.{Clerk, make_clerk}
use golang_deep_distributed.Harness.Servers.{make_ends, names_of, saved_by}
use golang_deep_distributed.Harness.Service.{switch_outgoing, connect_unlocked, disconnect_unlocked}

-- The clerks are known by their pointers.
pub record KvConfig (B : Type 0) : Type 0 where
  pub net : Network
  pub n : ℕ
  pub kvservers : List (Option (KvServer B))
  pub saved : List (Option (Persister B))
  pub endnames : List (Option (List ℕ))
  pub clerks : Dict ℕ (List ℕ)
  pub next_client_id : ℕ
  pub maxraftstate : Option ℕ

-- `sa[i], sa[j] = sa[j], sa[i]`
unfoldable pub swap {ℓ} : {A : Type ℓ} → ℕ → ℕ → List A → Option (List A)
swap i j xs = get_elem? xs j >>= λ b. get_elem? xs i >>= λ a. some (set (set xs i b) j a)

-- The loop of `random_handles` from position `i` on, with `left` positions left; `draw i` is the number
-- that `rand.Intn(i + 1)` reduces.
unfoldable pub random_from {ℓ} : {A : Type ℓ} → (ℕ → ℕ) → ℕ → ℕ → List A → Option (List A)
unfolding swap
random_from draw i zero sa = some sa
random_from draw i (suc left) sa = swap i (draw i % (i + 1)) sa >>= random_from draw (i + 1) left

unfoldable pub random_handles {ℓ} : {A : Type ℓ} → (ℕ → ℕ) → List A → Option (List A)
unfolding random_from
random_handles draw kvh = random_from draw 0 (length kvh) kvh

-- The numbers from `i` on, as many as are left.
unfoldable pub all_from : ℕ → ℕ → List ℕ
all_from i zero = []
all_from i (suc left) = i ∷ all_from (i + 1) left

unfoldable pub all : ℕ → List ℕ
unfolding all_from
all n = all_from 0 n

-- The body of the loop of `make_partition` for server `i`, with the leader, `j` and the two parts.
unfoldable pub part_server : ℕ → ℕ → ℕ → List ℕ → List ℕ → Option (ℕ × List ℕ × List ℕ)
part_server l i j p1 p2 =
    if i == l
    then some (j, p1, p2)
    else if ltb j (length p1)
    then some (j + 1, set p1 j i, p2)
    else if ltb (j - length p1) (length p2)
    then some (j + 1, p1, set p2 (j - length p1) i)
    else none

-- The loop from server `i` on.
unfoldable pub part_servers : ℕ → ℕ → ℕ → ℕ → List ℕ → List ℕ → Option (List ℕ × List ℕ)
unfolding part_server
part_servers l i zero j p1 p2 = some (p1, p2)
part_servers l i (suc left) j p1 p2 =
    part_server l i j p1 p2 >>= λ (j', q1, q2). part_servers l (i + 1) left j' q1 q2

-- `make_partition` once the leader is known.
unfoldable pub partition_around : ℕ → ℕ → Option (List ℕ × List ℕ)
unfolding part_servers
partition_around n l =
    part_servers l 0 n 0 (replicate (n / 2 + 1) 0) (replicate (n / 2) 0) >>= λ (p1, p2).
    if length p2 == 0 then none else some (p1, set p2 (length p2 - 1) l)

module _ {B : Type 0} where
  abbrev pub peer_of : Option (KvServer B) → Option (Raft Op B)
  peer_of kv = kv >>= λ k. some k.rf

  -- `cfg.saved[i]`, which a server that is there shares with its peer.
  unfoldable pub saved_at : KvConfig B → ℕ → Option (Option (Persister B))
  saved_at cfg i = get_elem? cfg.kvservers i >>= λ kv.
      get_elem? cfg.saved i >>= λ ps. some (saved_by (peer_of kv) ps)

  unfoldable pub connect_client_unlocked : ℕ → List ℕ → KvConfig B → Option (KvConfig B)
  unfolding switch_outgoing
  connect_client_unlocked ck to cfg =
      switch_outgoing true (names_of (lookup ck cfg.clerks)) to cfg.net >>= λ net.
      some (record cfg { net = net })

  unfoldable pub disconnect_client_unlocked : ℕ → List ℕ → KvConfig B → Option (KvConfig B)
  unfolding switch_outgoing
  disconnect_client_unlocked ck from cfg =
      switch_outgoing false (names_of (lookup ck cfg.clerks)) from cfg.net >>= λ net.
      some (record cfg { net = net })

  -- `makeClient` with the names and pointers of its ends, the pointer of the clerk, the numbers of
  -- `random_handles`, those of `generateID`, and the ids in use: the clerk, its ends in their order, and
  -- the ids.
  unfoldable pub make_client :
      List ℕ
      → List (ℕ × ℕ)
      → ℕ
      → (ℕ → ℕ)
      → List ℕ
      → List ℕ
      → KvConfig B
      → Option (Clerk × List ℕ × List ℕ × KvConfig B)
  unfolding make_ends random_handles make_clerk connect_client_unlocked
  make_client to names pointer draw ids clients cfg = do
    net ← make_ends 0 names cfg.net
    handles ← random_handles draw (map (λ (name, end). end) names)
    (ck, clients') ← make_clerk (length handles) ids clients
    cfg' ← connect_client_unlocked pointer to (record cfg {
      net = net;
      clerks = insert pointer (map (λ (name, end). name) names) cfg.clerks;
      next_client_id = cfg.next_client_id + 1;
    })
    some (ck, handles, clients', cfg')

  unfoldable pub delete_client : ℕ → KvConfig B → KvConfig B
  delete_client ck cfg = record cfg { clerks = delete ck cfg.clerks }

  -- `Leader` from server `i` on.
  unfoldable pub leader_from : ℕ → List (Option (KvServer B)) → Option (Bool × ℕ)
  unfolding get_state
  leader_from i [] = some (false, 0)
  leader_from i (none ∷ kvservers) = none
  leader_from i (some kv ∷ kvservers) =
      let rest = leader_from (i + 1) kvservers in
      if (get_state kv.rf).1 then some (true, i) else rest

  unfoldable pub leader : KvConfig B → Option (Bool × ℕ)
  unfolding leader_from
  leader cfg = leader_from 0 cfg.kvservers

  unfoldable pub make_partition : KvConfig B → Option (List ℕ × List ℕ)
  unfolding leader partition_around
  make_partition cfg = leader cfg >>= λ (found, l). partition_around cfg.n l

  -- `ConnectAll` from server `i` on.
  unfoldable pub connect_from_all : ℕ → ℕ → KvConfig B → Option (KvConfig B)
  unfolding connect_unlocked all
  connect_from_all i zero cfg = some cfg
  connect_from_all i (suc left) cfg = connect_unlocked cfg.endnames i (all cfg.n) cfg.net >>= λ net.
      connect_from_all (i + 1) left (record cfg { net = net })

  unfoldable pub connect_all : KvConfig B → Option (KvConfig B)
  unfolding connect_from_all
  connect_all cfg = connect_from_all 0 cfg.n cfg

  -- The server's `Kill`, if there is a server.
  abbrev pub kill_server : Option (KvServer B) → Option (Unit {0})
  kill_server none = some tt
  kill_server (some kv) = kill kv >>= λ kv'. some tt

  unfoldable pub empty_config : ℕ → Option ℕ → KvConfig B
  empty_config n maxraftstate = record {
    net = make_network;
    n = n;
    kvservers = replicate n none;
    saved = replicate n none;
    endnames = replicate n none;
    clerks = [];
    next_client_id = n + 1000;
    maxraftstate = maxraftstate;
  }

-- The largest size of what is saved, from server `i` on.
unfoldable pub largest_from : {B : Type 0} → (Persister B → ℕ) → KvConfig B → ℕ → ℕ → ℕ → Option ℕ
unfolding saved_at
largest_from size cfg i zero most = some most
largest_from size cfg i (suc left) most =
    let rest = λ (m : ℕ). largest_from size cfg (i + 1) left m in
    saved_at cfg i >>= λ ps. ps >>= λ p. rest (if ltb most (size p) then size p else most)

-- The same with the server that has it, where -1 is `none`.
unfoldable pub largest_at :
    {B : Type 0} → (Persister B → ℕ) → KvConfig B → ℕ → ℕ → Option (ℕ × ℕ) → Option (Option (ℕ × ℕ))
unfolding saved_at
largest_at size cfg i zero most = some most
largest_at size cfg i (suc left) most =
    let rest = λ (m : Option (ℕ × ℕ)). largest_at size cfg (i + 1) left m in
    saved_at cfg i >>= λ ps. ps >>= λ p. rest (elim most [
      | none ↦ some (size p, i)
      | some (m, at) ↦ if ltb m (size p) then some (size p, i) else some (m, at)
    ])

module _ {B : Type 0} (rgob : Gob (RaftValue Op) B) (kgob : Gob Value B) where
  unfoldable pub log_size : KvConfig B → Option ℕ
  unfolding largest_from raft_state_size
  log_size cfg = largest_from (raft_state_size rgob) cfg 0 cfg.n 0

  unfoldable pub log_size_debug : KvConfig B → Option (Option (ℕ × ℕ))
  unfolding largest_at raft_state_size
  log_size_debug cfg = largest_at (raft_state_size rgob) cfg 0 cfg.n none

  unfoldable pub snapshot_size : KvConfig B → Option ℕ
  unfolding largest_from saved_size
  snapshot_size cfg = largest_from (saved_size rgob) cfg 0 cfg.n 0

  unfoldable pub shutdown_server : ℕ → KvConfig B → Option (KvConfig B)
  unfolding disconnect_unlocked all delete_server copy
  shutdown_server i cfg = disconnect_unlocked cfg.endnames i (all cfg.n) cfg.net >>= λ net.
      get_elem? cfg.saved i >>= λ ps. get_elem? cfg.kvservers i >>= λ kv. kill_server kv >>= λ _.
      some (record cfg {
        net = delete_server i net;
        saved = set cfg.saved i (saved_by (peer_of kv) ps >>= λ p. some (copy rgob p));
        kvservers = set cfg.kvservers i none;
      })

  -- `StartServer` with the names and pointers of its ends and the server that is put on the network.
  unfoldable pub start_server : ℕ → List (ℕ × ℕ) → ℕ → KvConfig B → Option (KvConfig B)
  unfolding make_ends saved_at add_server copy make_persister start_kv_server
  start_server i names srv cfg = get_elem? cfg.endnames i >>= λ old_names.
      make_ends 0 names cfg.net >>= λ net. saved_at cfg i >>= λ ps.
      let persister : Persister B = elim ps [
        | some old ↦ copy rgob old
        | none ↦ make_persister rgob
      ] in
      some (record cfg {
        net = add_server i srv net;
        endnames = set cfg.endnames i (some (map (λ (name, end). name) names));
        saved = set cfg.saved i (some persister);
        kvservers =
            set cfg.kvservers i
              (some (start_kv_server rgob kgob cfg.n i persister cfg.maxraftstate));
      })

  unfoldable pub start_servers : ℕ → List (List (ℕ × ℕ) × ℕ) → KvConfig B → Option (KvConfig B)
  unfolding start_server
  start_servers i [] cfg = some cfg
  start_servers i ((names, srv) ∷ servers) cfg =
      start_server i names srv cfg >>= start_servers (i + 1) servers

  unfoldable pub make_config : Bool → Option ℕ → List (List (ℕ × ℕ) × ℕ) → Option (KvConfig B)
  unfolding empty_config start_servers connect_all
  make_config unreliable maxraftstate servers =
      start_servers 0 servers (empty_config (length servers) maxraftstate)
      >>= connect_all
      >>= λ cfg. some (record cfg { net = set_reliable (not unreliable) cfg.net })

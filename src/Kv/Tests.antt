-- ===== src/Kv/Tests.antt =====
-- A small service of kvraft/server.go and kvraft/client.go, runs on it, and the theorems at these
-- inputs.
use Prim.Native.String.{String}
use golang_deep_distributed.Prelude.{
  ℕ, ◌+◌, ◌≡◌, refl, inr, true, false, Option, none, some, List, [], ◌∷◌, arith, if◌then◌else◌,
  length,
}
use golang_deep_distributed.Prelude.Dict.{lookup, insert, delete, option_nat_eq}
use golang_deep_distributed.Persister.{Gob}
use golang_deep_distributed.Raft.State.{Raft, ApplyMsg, leader, Value as RaftValue, log_at}
use golang_deep_distributed.Kv.State.{
  Op, ok, Store, KvServer, Value, GetArgs, PutAppendArgs, PutAppendReply, GetReply,
}
use golang_deep_distributed.Kv.Server.{is_fresh, apply_op, wait, put_append, submit}
use golang_deep_distributed.Kv.Apply.{generate_snapshot, apply_command, apply_msg, start_kv_server}
use golang_deep_distributed.Kv.Once.{apply_all, exec_all, apply_all_once}
use golang_deep_distributed.Kv.Snapshots.{generate_snapshot_restores}
use golang_deep_distributed.Kv.Lost.{idle, submitted, peer_moved, Lacks, apply_msg_lost}
use golang_deep_distributed.Raft.Leader.{start}
use golang_deep_distributed.Kv.Requests.{put_append-wait, to_op, apply_command_lem, opened}
use golang_deep_distributed.Kv.Clerk.{
  Clerk, Outcome, timeout, returned, put_append as clerk_put_append, get as clerk_get, put_args,
}
use golang_deep_distributed.Kv.Retries.{GoesRound, Counts, put_append-GoesRound}

-- One buffer type for the values of Raft and of the service.
abbrev pub Bytes : Type 0
Bytes = List (RaftValue Op) × List Value

abbrev pub raft_gob : Gob (RaftValue Op) Bytes
raft_gob = record {
  nil = ([], []);
  len = λ b. length b.0 + length b.1;
  encode = λ vs. (vs, []);
  decode = λ b. b.0;
  len-nil = refl;
  len-encode = λ v vs. omega arith;
  decode-encode = λ vs. refl;
}

abbrev pub kv_gob : Gob Value Bytes
kv_gob = record {
  nil = ([], []);
  len = λ b. length b.0 + length b.1;
  encode = λ vs. ([], vs);
  decode = λ b. b.1;
  len-nil = refl;
  len-encode = λ v vs. omega arith;
  decode-encode = λ vs. refl;
}

abbrev command : String → String → ℕ → Op
command op value seq = record { key = "k"; value = value; op = op; client_id = 5; seq_no = seq }

abbrev peer : Raft Op Bytes
peer = record {
  peers = 3;
  persister = record { raftstate = ([], []); snapshot = ([], []) };
  me = 0;
  shutdown = false;
  state = leader;
  current_term = 2;
  voted_for = some 0;
  logs = record { term = 0; command = none } ∷ [];
  commit_index = 0;
  last_applied = 0;
  next_index = 1 ∷ 1 ∷ 1 ∷ [];
  match_index = 0 ∷ 0 ∷ 0 ∷ [];
  snapshot_index = 0;
  snapshot_term = 0;
}

abbrev pub server : KvServer Bytes
server = record {
  me = 0;
  rf = peer;
  dead = false;
  maxraftstate = none;
  store = record {
    db = ("k", "x") ∷ [];
    duplicate =
        (5, record { seq = 1; reply = record { wrong_leader = false; err = ""; value = "" } }) ∷ [];
  };
  snapshot_index = 0;
  notify_chs = (none, 0) ∷ (some 1, 1) ∷ [];
  channels = 2;
}

-- A client retries its first request, which the log then holds twice.
abbrev pub retried : List Op
retried = command "Append" "a" 1 ∷ command "Append" "a" 1 ∷ command "Append" "b" 2 ∷ []

retried_once : exec_all [] (command "Append" "a" 1 ∷ command "Append" "b" 2 ∷ []) ≡ ("k", "ab") ∷ []
unfolding exec_all insert lookup
retried_once = refl

apply_all_once_example :
    (s : Store) × (apply_all (record { db = []; duplicate = [] }) retried ≡ some s)
    × (s.db ≡ exec_all [] (command "Append" "a" 1 ∷ command "Append" "b" 2 ∷ []))
apply_all_once_example =
    apply_all_once retried [] (inr (inr refl), (inr (inr refl), (inr (inr refl), tt)))

abbrev snapshot_msg : ApplyMsg Op Bytes
snapshot_msg = record {
  command_valid = true;
  command = none;
  command_index = 4;
  use_snapshot = true;
  snapshot = (generate_snapshot kv_gob server 4).1;
}

abbrev command_msg : Op → ℕ → ApplyMsg Op Bytes
command_msg cmd at = record {
  command_valid = true;
  command = some cmd;
  command_index = at;
  use_snapshot = false;
  snapshot = ([], []);
}

abbrev empty_server : KvServer Bytes
empty_server =
    start_kv_server raft_gob kv_gob 3 1 (record { raftstate = ([], []); snapshot = ([], []) }) none

generate_snapshot_restores_example :
    let again =
      start_kv_server raft_gob kv_gob 3 0 (generate_snapshot kv_gob server 4).0.rf.persister none in
    let late = command_msg (command "Put" "old" 1) 3 in
    (again.store ≡ server.store)
    × (again.snapshot_index ≡ 4)
    × ((given : KvServer Bytes) × (apply_msg raft_gob kv_gob empty_server snapshot_msg
          ≡ some (given, []))
        × (given.store ≡ server.store)
        × (given.snapshot_index ≡ 4)
        × (apply_msg raft_gob kv_gob given late ≡ some (given, []))
        × (apply_msg raft_gob kv_gob again late ≡ some (again, [])))
generate_snapshot_restores_example =
    generate_snapshot_restores raft_gob kv_gob server empty_server 4 3 0 none snapshot_msg
      (command_msg (command "Put" "old" 1) 3) refl refl refl refl (omega arith)

abbrev put_request : PutAppendArgs
put_request = record { key = "k"; value = "y"; op = "Put"; client_id = 5; seq_no = 2 }

put_append-wait_example :
    let out = put_append raft_gob server put_request in
    (out.1 ≡ wait (some 1) 2 2)
    × (log_at out.0.rf 1 ≡ some (record { term = 2; command = some (to_op raft_gob put_request) }))
    × (out.0.store ≡ server.store)
    × (lookup (some 1) out.0.notify_chs ≡ some 2)
unfolding is_fresh lookup
put_append-wait_example = put_append-wait raft_gob server put_request refl refl refl

abbrev put_done : KvServer Bytes
put_done = record server {
  store = record {
    db = ("k", "y") ∷ [];
    duplicate =
        (5, record { seq = 2; reply = record { wrong_leader = false; err = ""; value = "" } }) ∷ [];
  };
  notify_chs = (none, 0) ∷ [];
}

put_applied : apply_command raft_gob kv_gob server (command "Put" "y" 2) 1 ≡ some (put_done, 1 ∷ [])
unfolding apply_command lookup insert delete
put_applied = refl

apply_command_lem_example :
    (apply_op server.store (command "Put" "y" 2) ≡ some put_done.store)
    × (1 ∷ [] ≡ opened 1 server.notify_chs)
    × ((slot : Option ℕ)
        → lookup slot put_done.notify_chs
          ≡ (if option_nat_eq.beq (some 1) slot then none else lookup slot server.notify_chs))
apply_command_lem_example =
    apply_command_lem raft_gob kv_gob server (command "Put" "y" 2) 1 put_done (1 ∷ []) put_applied

abbrev get_request : GetArgs
get_request = record { key = "k"; client_id = 6; seq_no = 1 }

-- A server with no waiter. A command is submitted and waits under index 1, the peer is shut down, and a
-- second command waits under the index -1; then the first command comes back and is applied.
abbrev idle_server : KvServer Bytes
idle_server = record server { notify_chs = []; channels = 0 }

abbrev first_wait : KvServer Bytes
first_wait = (submit raft_gob idle_server (command "Put" "y" 2)).0

abbrev shut : KvServer Bytes
shut = record first_wait { rf = record first_wait.rf { shutdown = true } }

abbrev second_wait : KvServer Bytes × Option ℕ × ℕ × ℕ
second_wait = submit raft_gob shut (command "Put" "z" 3)

abbrev woken : KvServer Bytes
woken = record second_wait.0 { store = put_done.store; notify_chs = (none, 1) ∷ [] }

first_woken :
    apply_msg raft_gob kv_gob second_wait.0 (command_msg (command "Put" "y" 2) 1)
    ≡ some (woken, 0 ∷ [])
unfolding apply_msg apply_command lookup insert delete submit start
first_woken = refl

apply_msg_lost_example :
    (second_wait.1 ≡ none)
    × (lookup none second_wait.0.notify_chs ≡ some second_wait.3)
    × Lacks second_wait.3 (0 ∷ [])
unfolding submit start
apply_msg_lost_example =
    apply_msg_lost raft_gob kv_gob {made = idle_server} {kv = shut} {later = second_wait.0}
      {next = woken} (command "Put" "z" 3) (command_msg (command "Put" "y" 2) 1) (0 ∷ []) refl
      (peer_moved (record first_wait.rf { shutdown = true }) (submitted (command "Put" "y" 2) idle))
      refl idle first_woken

-- A clerk that knows no leader yet, in a cluster of three: one request is lost, one reaches a server
-- that does not lead, and one succeeds.
abbrev clerk : Clerk
clerk = record { servers = 3; leader = 3; seq = 1; id = 5 }

abbrev put_outcomes : List (Outcome PutAppendReply)
put_outcomes =
    timeout
    ∷ returned true (record { wrong_leader = true; err = "" })
    ∷ returned true (record { wrong_leader = false; err = ok })
    ∷ []

abbrev get_outcomes : List (Outcome GetReply)
get_outcomes = timeout ∷ returned true (record { wrong_leader = false; err = ok; value = "y" }) ∷ []

got : (clerk_get "k" get_outcomes clerk).result ≡ some "y"
unfolding clerk_get
got = refl

put_append-GoesRound_example :
    let c = clerk_put_append "k" "y" "Put" put_outcomes clerk in
    GoesRound clerk (put_args clerk "k" "y" "Put") c.sent
    × Counts clerk put_outcomes c
    × (c.clerk.id ≡ 5)
put_append-GoesRound_example = put_append-GoesRound "k" "y" "Put" put_outcomes clerk

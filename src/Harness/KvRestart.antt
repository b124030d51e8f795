-- ===== src/Harness/KvRestart.antt =====
-- A server that `ShutdownServer` of kvraft/config.go stops and `StartServer` starts again.
use golang_deep_distributed.Prelude.{
  ℕ, zero, suc, ◌+◌, ◌<◌, ◌≡◌, refl, sym, ap, ◌∙◌, subst, ◌≢◌, false, Option, none, some, List, [],
  map, arith, length, get_elem?, set, length-set, get_elem?_lt, get_elem?-set_self,
  get_elem?-set_ne,
}
use golang_deep_distributed.Prelude.Dict.{nat_eq}
use golang_deep_distributed.Persister.{
  Gob, Persister, make_persister, copy, read_snapshot as stored_snapshot,
}
use golang_deep_distributed.Labrpc.Network.{delete_server, add_server}
use golang_deep_distributed.Raft.State.{Value as RaftValue, follower}
use golang_deep_distributed.Raft.Persist.{make}
use golang_deep_distributed.Raft.Leader.{kill as kill_raft}
use golang_deep_distributed.Raft.Durability.{IsDurable, SameState, make-SameState}
use golang_deep_distributed.Kv.State.{Op, KvServer, Value}
use golang_deep_distributed.Kv.Apply.{start_kv_server, generate_snapshot, read_snapshot, kill}
use golang_deep_distributed.Kv.Snapshots.{read_snapshot_lem}
use golang_deep_distributed.Harness.Links.{IsNet, disconnect_unlocked_lem}
use golang_deep_distributed.Harness.Starting.{first}
use golang_deep_distributed.Harness.KvConfig.{
  KvConfig, all, all_from, saved_at, shutdown_server, start_server,
}
use golang_deep_distributed.Harness.FreshEnds.{AreFresh, make_ends_total, disconnect_unlocked-ends}
use golang_deep_distributed.Harness.KvMade.{AreBelow-all_from}

length-all_from : (i left : ℕ) → length (all_from i left) ≡ left
unfolding all_from
length-all_from i zero = refl
length-all_from i (suc left) = ground (arith, length-all_from (i + 1) left)

module _ {B : Type 0} (rgob : Gob (RaftValue Op) B) (kgob : Gob Value B) where
  copy_lem : (ps : Persister B) → copy rgob ps ≡ ps
  unfolding copy make_persister
  copy_lem ps = refl

  -- What `ShutdownServer` leaves: the server is gone, its persister is saved, and all else is as it was.
  record IsDown (i : ℕ) (kv : KvServer B) (cfg off : KvConfig B) : Type 0 where
    run : shutdown_server rgob kgob i cfg ≡ some off
    ends : off.net.ends ≡ cfg.net.ends
    same : (off.n ≡ cfg.n) × (off.endnames ≡ cfg.endnames) × (off.maxraftstate ≡ cfg.maxraftstate)
    saved : off.saved ≡ set cfg.saved i (some kv.rf.persister)
    kvservers : off.kvservers ≡ set cfg.kvservers i none

  shutdown_server-IsDown :
      (i : ℕ) (cfg : KvConfig B) (kv : KvServer B)
      → IsNet cfg.n cfg.endnames
      → i < cfg.n
      → length cfg.saved ≡ cfg.n
      → get_elem? cfg.kvservers i ≡ some (some kv)
      → kv.rf.shutdown ≡ false
      → (off : KvConfig B) × IsDown i kv cfg off
  unfolding shutdown_server delete_server all kill kill_raft
  shutdown_server-IsDown i cfg kv net lt saves there up =
      let (rn, run, flags) =
        disconnect_unlocked_lem cfg.n cfg.endnames net i (all cfg.n) cfg.net lt
          (omega (arith, length-all_from 0 cfg.n))
          (AreBelow-all_from cfg.n 0 cfg.n (omega arith)) in
      let (ps, at) = get_elem?_lt cfg.saved i (omega (arith, lt, saves)) in
      (
        record cfg {
          net = delete_server i rn;
          saved = set cfg.saved i (some (copy rgob kv.rf.persister));
          kvservers = set cfg.kvservers i none;
        },
        record {
          run = ground (arith, run, at, there, up);
          ends = disconnect_unlocked-ends cfg.endnames i (all cfg.n) cfg.net rn run;
          same = (refl, refl, refl);
          saved = ap (λ p. set cfg.saved i (some p)) (copy_lem kv.rf.persister);
          kvservers = refl;
        },
      )

  -- The server that was started again has the persistent state of the old one's peer and the maps of its
  -- last snapshot; it is a follower, and the other servers are as they were.
  pub record IsRestarted (i at : ℕ) (kv old : KvServer B) (cfg on : KvConfig B) : Type 0 where
    pub new : KvServer B
    pub there : get_elem? on.kvservers i ≡ some (some new)
    pub state : SameState rgob new.rf kv.rf
    pub follows : new.rf.state ≡ follower
    pub store : new.store ≡ old.store
    pub snapshot : new.snapshot_index ≡ at
    pub others : (a : ℕ) → i ≢ a → get_elem? on.kvservers a ≡ get_elem? cfg.kvservers a

  -- The server that `StartServer` makes of a saved persister.
  start_kv_server-again :
      (kv old : KvServer B) (at : ℕ) (limit : Option ℕ)
      → IsDurable rgob kv.rf
      → kv.rf.persister.snapshot ≡ (generate_snapshot kgob old at).1
      → let new = start_kv_server rgob kgob kv.rf.peers kv.rf.me kv.rf.persister limit in
        SameState rgob new.rf kv.rf
        × (new.rf.state ≡ follower)
        × (new.store ≡ old.store)
        × (new.snapshot_index ≡ at)
  unfolding start_kv_server stored_snapshot
  start_kv_server-again kv old at limit saved snap =
      let (same, follows, commit, applied, up) = make-SameState rgob kv.rf saved in
      let blank : KvServer B = record {
        me = kv.rf.me;
        rf = make rgob kv.rf.peers kv.rf.me kv.rf.persister;
        dead = false;
        maxraftstate = limit;
        store = record { db = []; duplicate = [] };
        snapshot_index = 0;
        notify_chs = [];
        channels = 0;
      } in
      let read = ap (read_snapshot kgob blank) snap ∙ read_snapshot_lem kgob old blank at in
      (
        subst (λ r. SameState rgob r kv.rf) (sym (ap (λ k. k.rf) read)) same,
        ap (λ k. k.rf.state) read ∙ follows,
        ap (λ k. k.store) read,
        ap (λ k. k.snapshot_index) read,
      )

  start_server-IsRestarted :
      (i at srv : ℕ) (names : List (ℕ × ℕ)) (cfg off : KvConfig B) (kv old : KvServer B)
      → i < cfg.n
      → length cfg.endnames ≡ cfg.n
      → length cfg.saved ≡ cfg.n
      → length cfg.kvservers ≡ cfg.n
      → kv.rf.peers ≡ cfg.n
      → kv.rf.me ≡ i
      → IsDurable rgob kv.rf
      → kv.rf.persister.snapshot ≡ (generate_snapshot kgob old at).1
      → AreFresh names cfg.net.ends
      → IsDown i kv cfg off
      → (on : KvConfig B) × (start_server rgob kgob i names srv off ≡ some on)
        × IsRestarted i at kv old cfg on
  unfolding start_server
  start_server-IsRestarted i at srv names cfg off kv old lt slices saves servers size me durable
        snap fresh down =
      let (net, ends) =
        make_ends_total 0 names off.net (subst (AreFresh names) (sym down.ends) fresh) in
      let (es, names_at) = get_elem?_lt off.endnames i (ground (arith, down.same, lt, slices)) in
      let no_server =
        ap (λ xs. get_elem? xs i) down.kvservers
        ∙ get_elem?-set_self cfg.kvservers i none (omega (arith, lt, servers)) in
      let save =
        ap (λ xs. get_elem? xs i) down.saved
        ∙ get_elem?-set_self cfg.saved i (some kv.rf.persister) (omega (arith, lt, saves)) in
      let here : saved_at off i ≡ some (some kv.rf.persister) =
        unfold saved_at in ground (arith, no_server, save) in
      let again = start_kv_server rgob kgob off.n i (copy rgob kv.rf.persister) off.maxraftstate in
      let is : start_kv_server rgob kgob kv.rf.peers kv.rf.me kv.rf.persister off.maxraftstate
          ≡ again =
        ap (λ m. start_kv_server rgob kgob m kv.rf.me kv.rf.persister off.maxraftstate)
          (size ∙ sym down.same.0)
        ∙ ap (λ m. start_kv_server rgob kgob off.n m kv.rf.persister off.maxraftstate) me
        ∙ ap (λ p. start_kv_server rgob kgob off.n i p off.maxraftstate)
            (sym (copy_lem kv.rf.persister)) in
      let (same, follows, store, index) =
        subst
          (λ (k : KvServer B).
            SameState rgob k.rf kv.rf
            × (k.rf.state ≡ follower)
            × (k.store ≡ old.store)
            × (k.snapshot_index ≡ at))
          is (start_kv_server-again kv old at off.maxraftstate durable snap) in
      let on : KvConfig B = record off {
        net = add_server i srv net;
        endnames = set off.endnames i (some (map first names));
        saved = set off.saved i (some (copy rgob kv.rf.persister));
        kvservers = set off.kvservers i (some again);
      } in
      (
        on,
        ground (arith, names_at, ends, here),
        record {
          new = again;
          there = get_elem?-set_self off.kvservers i (some again) (
              omega
                (arith, lt, servers, ap length down.kvservers, length-set cfg.kvservers i none));
          state = same;
          follows = follows;
          store = store;
          snapshot = index;
          others = λ a ne.
              get_elem?-set_ne off.kvservers i a (some again) ne
              ∙ ap (λ xs. get_elem? xs a) down.kvservers
              ∙ get_elem?-set_ne cfg.kvservers i a none ne;
        },
      )

  -- Where the network has the names of every server and the server runs, its state is saved, its persister
  -- has a snapshot of the service, and the names of the new ends are fresh, shutting it down and starting it
  -- again does not fail; the new server has the persistent Raft state of the old one and the maps of the snapshot,
  -- is a follower, and the other servers are as they were.
  pub shutdown_start_lem :
      (i at srv : ℕ) (names : List (ℕ × ℕ)) (cfg : KvConfig B) (kv old : KvServer B)
      → IsNet cfg.n cfg.endnames
      → i < cfg.n
      → length cfg.saved ≡ cfg.n
      → length cfg.kvservers ≡ cfg.n
      → get_elem? cfg.kvservers i ≡ some (some kv)
      → kv.rf.shutdown ≡ false
      → kv.rf.peers ≡ cfg.n
      → kv.rf.me ≡ i
      → IsDurable rgob kv.rf
      → kv.rf.persister.snapshot ≡ (generate_snapshot kgob old at).1
      → AreFresh names cfg.net.ends
      → (off on : KvConfig B) × (shutdown_server rgob kgob i cfg ≡ some off)
        × (start_server rgob kgob i names srv off ≡ some on)
        × IsRestarted i at kv old cfg on
  shutdown_start_lem i at srv names cfg kv old net lt saves servers there up size me durable snap
        fresh =
      let (off, down) = shutdown_server-IsDown i cfg kv net lt saves there up in
      let (on, run, is) =
        start_server-IsRestarted i at srv names cfg off kv old lt net.servers saves servers size me
          durable snap fresh down in
      (off, on, down.run, run, is)

-- ===== src/Kv/Server.antt =====
-- kvraft/server.go: the handlers `Get` and `PutAppend`, the daemon that applies commands, and
-- snapshots.
use Prim.Native.String.{String, ◌++◌ as str_append}
use text.Mathlib.Text.{◌==◌ as str_eq}
use golang_deep_distributed.Prelude.{
  ℕ, ◌+◌, ◌-◌, ◌/◌, Bool, true, false, ◌&&◌, ◌||◌, Option, none, some, List, [], ◌∷◌, ltb, ◌==◌,
  if◌then◌else◌,
}
use golang_deep_distributed.Prelude.Dict.{
  Dict, lookup, insert, delete, nat_eq, string_eq, option_nat_eq,
}
use golang_deep_distributed.Persister.{Gob, raft_state_size}
use golang_deep_distributed.Raft.State.{Value as RaftValue, get_state}
use golang_deep_distributed.Raft.Leader.{start}
use golang_deep_distributed.Kv.State.{
  Op, ok, err_no_key, GetArgs, GetReply, PutAppendArgs, PutAppendReply, LatestReply, Store,
  KvServer, blank,
}

-- `kv.db[key]`: a missing key reads as the empty string.
unfoldable pub value_of : Dict String String → String → String
value_of db key = elim (lookup key db) [ some v ↦ v | none ↦ "" ]

-- `dup, ok := kv.duplicate[id]; !ok || dup.Seq < seq`
unfoldable pub is_fresh : Store → ℕ → ℕ → Bool
is_fresh s client seq = elim (lookup client s.duplicate) [
  | some dup ↦ ltb dup.seq seq
  | none ↦ true
]

abbrev pub record_reply : Store → Op → String → Dict ℕ LatestReply
record_reply s cmd value =
    insert cmd.client_id (record { seq = cmd.seq_no; reply = record blank { value = value } })
      s.duplicate

-- The switch of `applyDaemon`; the default case panics.
unfoldable pub run_op : Store → Op → Option Store
unfolding value_of
run_op s cmd =
    if str_eq cmd.op "Get"
    then some (record s { duplicate = record_reply s cmd (value_of s.db cmd.key) })
    else if str_eq cmd.op "Put"
    then some (record { db = insert cmd.key cmd.value s.db; duplicate = record_reply s cmd "" })
    else if str_eq cmd.op "Append"
    then some (record {
      db = insert cmd.key (str_append (value_of s.db cmd.key) cmd.value) s.db;
      duplicate = record_reply s cmd "";
    })
    else none

-- "must filter duplicate command"
unfoldable pub apply_op : Store → Op → Option Store
unfolding is_fresh run_op
apply_op s cmd = if is_fresh s cmd.client_id cmd.seq_no then run_op s cmd else some s

-- What a handler does before it waits: it replies, or it waits on a channel for the log index.
pub data Begin (R : Type 0) : Type 0 where
  done : R → Begin R
  wait : Option ℕ → ℕ → ℕ → Begin R

abbrev pub is_snapshot_near : ℕ → ℕ → Bool
is_snapshot_near limit size = ltb limit size || ltb (limit - size) (limit / 10)

module _ {B : Type 0} (rgob : Gob (RaftValue Op) B) where
  unfoldable pub need_snapshot : KvServer B → Bool
  unfolding raft_state_size
  need_snapshot kv = elim kv.maxraftstate [
    | none ↦ false
    | some limit ↦ is_snapshot_near limit (raft_state_size rgob kv.rf.persister)
  ]

  -- A new channel under the index that `Start` gives, which is -1 if the peer is no leader any more.
  unfoldable pub submit : KvServer B → Op → KvServer B × Option ℕ × ℕ × ℕ
  submit kv cmd =
      let (rf, slot, term, _) = start rgob kv.rf cmd in
      (
        record kv {
          rf = rf;
          notify_chs = insert slot kv.channels kv.notify_chs;
          channels = kv.channels + 1;
        },
        slot,
        term,
        kv.channels,
      )

  -- `Get` up to the wait.
  unfoldable pub get : KvServer B → GetArgs → KvServer B × Begin GetReply
  unfolding is_fresh submit get_state
  get kv args =
      if (get_state kv.rf).1
      then if is_fresh kv.store args.client_id args.seq_no
        then (let (kv', slot, term, ch) = submit kv (record {
          key = args.key;
          value = "";
          op = "Get";
          client_id = args.client_id;
          seq_no = args.seq_no;
        }) in
            (kv', wait slot term ch))
        else (
          kv,
          done (record {
            wrong_leader = false;
            err = ok;
            value = elim (lookup args.client_id kv.duplicate) [
              | some dup ↦ dup.reply.value
              | none ↦ ""
            ];
          }),
        )
      else (kv, done (record blank { wrong_leader = true }))

  -- `PutAppend` up to the wait.
  unfoldable pub put_append : KvServer B → PutAppendArgs → KvServer B × Begin PutAppendReply
  unfolding is_fresh submit get_state
  put_append kv args =
      if (get_state kv.rf).1
      then if is_fresh kv.store args.client_id args.seq_no
        then (let (kv', slot, term, ch) = submit kv (record {
          key = args.key;
          value = args.value;
          op = args.op;
          client_id = args.client_id;
          seq_no = args.seq_no;
        }) in
            (kv', wait slot term ch))
        else (kv, done (record { wrong_leader = false; err = ok }))
      else (kv, done (record { wrong_leader = true; err = "" }))

-- The peer still leads in the term in which the command was submitted.
unfoldable pub still_leads : {B : Type 0} → KvServer B → ℕ → Bool
unfolding get_state
still_leads kv term = let (current, leads) = get_state kv.rf in leads && (term == current)

-- `Get` after its channel was closed, in the state at that time.
unfoldable pub get_end : {B : Type 0} → KvServer B → GetArgs → ℕ → GetReply
unfolding still_leads
get_end kv args term =
    if still_leads kv term
    then elim (lookup args.key kv.db) [
      | some v ↦ record { wrong_leader = false; err = ok; value = v }
      | none ↦ record { wrong_leader = false; err = err_no_key; value = "" }
    ]
    else record { wrong_leader = true; err = ""; value = "" }

-- `PutAppend` after its channel was closed.
unfoldable pub put_append_end : {B : Type 0} → KvServer B → ℕ → PutAppendReply
unfolding still_leads
put_append_end kv term =
    if still_leads kv term
    then record { wrong_leader = false; err = ok }
    else record { wrong_leader = true; err = "" }

-- Closes and removes the channel of a log index; the list holds the channels closed.
unfoldable pub notify : {B : Type 0} → KvServer B → ℕ → KvServer B × List ℕ
notify kv i = elim (lookup (some i) kv.notify_chs) [
  | some ch ↦ (record kv { notify_chs = delete (some i) kv.notify_chs }, ch ∷ [])
  | none ↦ (kv, [])
]

-- ===== src/Kv/State.antt =====
-- kvraft/common.go and the data of kvraft/server.go.
--
-- An `Err` is a string, as in the source. A client id and a sequence number are natural numbers.
-- `maxraftstate` is negative (`none`) where no snapshot is wanted.
use Prim.Native.String.{String}
use golang_deep_distributed.Prelude.{ℕ, Bool, false, Option}
use golang_deep_distributed.Prelude.Dict.{Dict}
use golang_deep_distributed.Raft.State.{Raft}

pub record Op : Type 0 where
  pub key : String
  pub value : String
  pub op : String
  pub client_id : ℕ
  pub seq_no : ℕ

abbrev pub ok : String
ok = "OK"

abbrev pub err_no_key : String
err_no_key = "ErrNoKey"

pub record GetArgs : Type 0 where
  pub key : String
  pub client_id : ℕ
  pub seq_no : ℕ

pub record GetReply : Type 0 where
  pub wrong_leader : Bool
  pub err : String
  pub value : String

pub record PutAppendArgs : Type 0 where
  pub key : String
  pub value : String
  pub op : String
  pub client_id : ℕ
  pub seq_no : ℕ

pub record PutAppendReply : Type 0 where
  pub wrong_leader : Bool
  pub err : String

pub record LatestReply : Type 0 where
  pub seq : ℕ
  pub reply : GetReply

-- The replicated part of a server: the two maps that commands change.
pub record Store : Type 0 where
  pub db : Dict String String
  pub duplicate : Dict ℕ LatestReply

-- The struct `KVServer`. `kv.persist` is the persister of `kv.rf`: both hold the same pointer. A
-- channel of `notifyChs` is a number, and `channels` counts those that were made; the map's key is
-- the log index, or -1 (`none`).
pub record KvServer (B : Type 0) : Type 0 where
  pub me : ℕ
  pub rf : Raft Op B
  pub dead : Bool
  pub maxraftstate : Option ℕ
  pub store : Store
  pub open store use *
  pub snapshot_index : ℕ
  pub notify_chs : Dict (Option ℕ) ℕ
  pub channels : ℕ

-- The values that `generateSnapshot` writes with one encoder.
pub data Value : Type 0 where
  table : Dict String String → Value
  index : ℕ → Value
  replies : Dict ℕ LatestReply → Value

abbrev pub blank : GetReply
blank = record { wrong_leader = false; err = ""; value = "" }

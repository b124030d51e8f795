-- ===== src/Labrpc/ClientEnd.antt =====
-- labrpc/labrpc.go: `ClientEnd.Call`, from the encoding of the arguments to the decoding of the reply.
--
-- What the network does with the request is an argument, so that `process_req` can stand for it. The
-- type of the arguments, which the request carries, is that of their codec.
use Prim.Native.String.{String}
use golang_deep_distributed.Prelude.{
  ℕ, ◌≡◌, Bool, true, false, Option, none, some, List, if◌then◌else◌,
}
use golang_deep_distributed.Labrpc.Network.{Network, ReplyMsg, Fate}

-- What the code relies on of labgob's encoders for one type: a variable with default values gets the value that
-- was encoded. Without that it may keep some of its old fields, and the decoder may fail (`none`).
pub record Codec (T : Type 0) : Type 0 where
  pub encode : T → List ℕ
  pub decode : List ℕ → T → Option T
  pub blank : T
  pub decode-encode : (v : T) → decode (encode v) blank ≡ some v

pub record ReqMsg : Type 0 where
  pub endname : ℕ
  pub svc_meth : String
  pub args : List ℕ

-- What `Call` returns and what it leaves in the reply, or that it waits for the reply.
pub data Called (R : Type 0) : Type 0 where
  returned : Bool → R → Called R
  pending : Called R

-- After the request was sent: a reply that cannot be decoded is a fatal error.
unfoldable pub take_reply : {R : Type 0} → Codec R → R → Option ReplyMsg → Option (Called R)
take_reply codec reply none = some pending
take_reply codec reply (some rep) =
    if rep.ok
    then elim (codec.decode rep.reply reply) [ some r ↦ some (returned true r) | none ↦ none ]
    else some (returned false reply)

module _ {A R : Type 0} (args_codec : Codec A) (reply_codec : Codec R) where
  unfoldable pub make_request : ℕ → String → A → ReqMsg
  make_request endname svc_meth args = record {
    endname = endname;
    svc_meth = svc_meth;
    args = args_codec.encode args;
  }

  -- The flag says that the network was destroyed before the request was sent.
  unfoldable pub call : ℕ → String → A → R → Bool → (ReqMsg → Fate) → Option (Called R)
  unfolding make_request take_reply
  call endname svc_meth args reply done process =
      if done
      then some (returned false reply)
      else take_reply reply_codec reply (process (make_request endname svc_meth args)).sent

abbrev pub get_total_count : Network → ℕ
get_total_count rn = rn.count

abbrev pub get_total_bytes : Network → ℕ
get_total_bytes rn = rn.bytes

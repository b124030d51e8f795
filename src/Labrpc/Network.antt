-- ===== src/Labrpc/Network.antt =====
-- labrpc/labrpc.go: the struct `Network`, the operations that the harness configures it with, and
-- `ProcessReq`, the fate of one request.
--
-- A name (`interface{}` in Go) is a number, a pointer to a server is a number, and nil is `none`. A
-- reply's bytes are a list of numbers. Sleeps only take time and are left out; a delayed send is marked.
use golang_deep_distributed.Prelude.{
  ℕ, ◌+◌, ◌%◌, Bool, true, false, not, ◌&&◌, ◌||◌, Option, none, some, List, [], ◌∷◌, ltb, ◌==◌,
  if◌then◌else◌, length,
}
use golang_deep_distributed.Prelude.Dict.{Dict, lookup, insert, nat_eq}

pub record ReplyMsg : Type 0 where
  pub ok : Bool
  pub reply : List ℕ

abbrev pub failure : ReplyMsg
failure = record { ok = false; reply = [] }

pub record Network : Type 0 where
  pub reliable : Bool
  pub long_delays : Bool
  pub long_reordering : Bool
  pub ends : Dict ℕ ℕ
  pub enabled : Dict ℕ Bool
  pub servers : Dict ℕ (Option ℕ)
  pub connections : Dict ℕ (Option ℕ)
  pub count : ℕ
  pub bytes : ℕ

-- Reading a Go map of Booleans or of pointers: the zero value for a missing key.
abbrev pub flag_at : ℕ → Dict ℕ Bool → Bool
flag_at k m = elim (lookup k m) [ some b ↦ b | none ↦ false ]

abbrev pub pointer_at : ℕ → Dict ℕ (Option ℕ) → Option ℕ
pointer_at k m = elim (lookup k m) [ some p ↦ p | none ↦ none ]

abbrev pub make_network : Network
make_network = record {
  reliable = true;
  long_delays = false;
  long_reordering = false;
  ends = [];
  enabled = [];
  servers = [];
  connections = [];
  count = 0;
  bytes = 0;
}

abbrev pub set_reliable : Bool → Network → Network
set_reliable on rn = record rn { reliable = on }

abbrev pub set_long_reordering : Bool → Network → Network
set_long_reordering on rn = record rn { long_reordering = on }

abbrev pub set_long_delays : Bool → Network → Network
set_long_delays on rn = record rn { long_delays = on }

-- `MakeEnd` with the end's new pointer; an end that exists is a fatal error.
unfoldable pub make_end : ℕ → ℕ → Network → Option Network
make_end endname pointer rn = elim (lookup endname rn.ends) [
  | some e ↦ none
  | none ↦ some (record rn {
    ends = insert endname pointer rn.ends;
    enabled = insert endname false rn.enabled;
    connections = insert endname none rn.connections;
  })
]

unfoldable pub add_server : ℕ → ℕ → Network → Network
add_server servername rs rn = record rn { servers = insert servername (some rs) rn.servers }

unfoldable pub delete_server : ℕ → Network → Network
delete_server servername rn = record rn { servers = insert servername none rn.servers }

unfoldable pub connect : ℕ → ℕ → Network → Network
connect endname servername rn = record rn {
  connections = insert endname (some servername) rn.connections;
}

unfoldable pub enable : ℕ → Bool → Network → Network
enable endname on rn = record rn { enabled = insert endname on rn.enabled }

-- What the goroutine of `MakeNetwork` counts when it takes a request.
unfoldable pub receive : ℕ → Network → Network
receive size rn = record rn { count = rn.count + 1; bytes = rn.bytes + size }

pub record EndInfo : Type 0 where
  pub enabled : Bool
  pub servername : Option ℕ
  pub server : Option ℕ
  pub reliable : Bool
  pub long_reordering : Bool

unfoldable pub read_endname_info : ℕ → Network → EndInfo
read_endname_info endname rn = record {
  enabled = flag_at endname rn.enabled;
  servername = pointer_at endname rn.connections;
  server = elim (pointer_at endname rn.connections) [
    | some name ↦ pointer_at name rn.servers
    | none ↦ none
  ];
  reliable = rn.reliable;
  long_reordering = rn.long_reordering;
}

abbrev pub same_pointer : Option ℕ → Option ℕ → Bool
same_pointer none none = true
same_pointer (some a) (some b) = a == b
same_pointer a b = false

unfoldable pub is_server_dead : ℕ → ℕ → ℕ → Network → Bool
is_server_dead endname servername server rn =
    not (flag_at endname rn.enabled)
    || not (same_pointer (pointer_at servername rn.servers) (some server))

-- The events of the waiting loop: the handler's reply comes, or 100ms pass and the network is as given.
pub data Event : Type 0 where
  handled : ReplyMsg → Event
  elapsed : Network → Event

-- What the loop ends with: a reply, or that the server was found dead. At the end of the events it is
-- still waiting.
pub data Wait : Type 0 where
  replied : ReplyMsg → Wait
  gave_up : Wait
  waiting : Wait

unfoldable pub wait_reply : ℕ → ℕ → ℕ → List Event → Wait
unfolding is_server_dead
wait_reply endname servername server [] = waiting
wait_reply endname servername server (handled r ∷ events) = replied r
wait_reply endname servername server (elapsed rn ∷ events) =
    let rest = wait_reply endname servername server events in
    if is_server_dead endname servername server rn then gave_up else rest

-- The random numbers of an unreliable network and of a reordering one, before `%`.
pub record Draws : Type 0 where
  pub request : ℕ
  pub response : ℕ
  pub reorder : ℕ

-- What became of a request: the server whose handler was called, what is sent on `replyCh` (nothing
-- yet, if the loop still waits), whether a goroutine sends it later, after a sleep and without looking
-- at the network again, and the bytes counted for the reply.
pub record Fate : Type 0 where
  pub dispatched : Option ℕ
  pub sent : Option ReplyMsg
  pub delayed : Bool
  pub counted : ℕ

-- What is sent at once, of no counted bytes.
abbrev pub at_once : Option ℕ → Option ReplyMsg → Fate
at_once dispatched sent = record {
  dispatched = dispatched;
  sent = sent;
  delayed = false;
  counted = 0;
}

-- After the loop, in the network as it is then. The last test is that of `longReordering`: two thirds
-- of the replies are sent by a goroutine, which takes the bytes of a reply into account when it runs.
unfoldable pub finish : EndInfo → Draws → ℕ → ℕ → ℕ → Wait → Network → Fate
unfolding is_server_dead
finish info draws endname servername server waiting after = at_once (some server) none
finish info draws endname servername server gave_up after = at_once (some server) (some failure)
finish info draws endname servername server (replied r) after =
    if is_server_dead endname servername server after
      || (not info.reliable && ltb (draws.response % 1000) 100)
    then at_once (some server) (some failure)
    else record {
      dispatched = some server;
      sent = some r;
      delayed = info.long_reordering && ltb (draws.reorder % 900) 600;
      counted = length r.reply;
    }

unfoldable pub process_req : ℕ → Network → Draws → List Event → Network → Fate
unfolding read_endname_info wait_reply finish
process_req endname rn draws events after =
    let info = read_endname_info endname rn in
    elim info.servername [
      | none ↦ at_once none (some failure)
      | some name ↦ elim info.server [
        | none ↦ at_once none (some failure)
        | some server ↦
            (if not info.enabled || (not info.reliable && ltb (draws.request % 1000) 100)
              then at_once none (some failure)
              else finish info draws endname name server (wait_reply endname name server events)
                  after)
      ]
    ]

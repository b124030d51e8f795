-- ===== src/Labrpc/Tests.antt =====
-- A small network of labrpc/labrpc.go, requests on it, and the theorems at these inputs.
use golang_deep_distributed.Prelude.{◌≡◌, refl, true, false, some, List, [], ◌∷◌, ◌>>=◌}
use golang_deep_distributed.Prelude.Dict.{lookup, insert}
use golang_deep_distributed.Labrpc.Network.{
  ReplyMsg, failure, Network, make_network, make_end, add_server, connect, enable, delete_server,
  Event, handled, elapsed, Draws, process_req,
}
use golang_deep_distributed.Labrpc.Requests.{process_req-delete_server}

-- One end (1), connected to one server (7, at pointer 70).
abbrev pub net : Network
net = record make_network {
  ends = (1, 10) ∷ [];
  enabled = (1, true) ∷ [];
  servers = (7, some 70) ∷ [];
  connections = (1, some 7) ∷ [];
}

built :
    make_end 1 10 (add_server 7 70 make_network) >>= (λ rn. some (enable 1 true (connect 1 7 rn)))
    ≡ some net
unfolding make_end add_server connect enable lookup insert
built = refl

abbrev answer : ReplyMsg
answer = record { ok = true; reply = 4 ∷ [] }

abbrev pub draws : Draws
draws = record { request = 500; response = 500; reorder = 500 }

abbrev events : List Event
events = elapsed net ∷ handled answer ∷ []

answered : (process_req 1 net draws events net).sent ≡ some answer
unfolding process_req lookup
answered = refl

lost : (process_req 1 net draws events (delete_server 7 net)).sent ≡ some failure
unfolding process_req delete_server lookup insert
lost = refl

process_req-delete_server_example : failure.ok ≡ false
unfolding lookup
process_req-delete_server_example =
    process_req-delete_server 1 7 net draws events net failure refl lost

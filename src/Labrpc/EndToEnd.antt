-- ===== src/Labrpc/EndToEnd.antt =====
-- A call over the network of labrpc/labrpc.go, from the client's arguments to the handler's reply.
use Prim.Native.String.{String}
use golang_deep_distributed.Prelude.{
  ℕ, ◌+◌, ◌≡◌, refl, ap, ◌∙◌, true, false, none, some, List, [], ◌∷◌, ◌++◌, map, arith,
}
use golang_deep_distributed.Labrpc.Network.{
  Network, ReplyMsg, flag_at, pointer_at, Event, handled, elapsed, replied, wait_reply, Draws,
  process_req,
}
use golang_deep_distributed.Labrpc.Requests.{process_req_iff, is_server_dead_alive}
use golang_deep_distributed.Labrpc.Server.{Method, Server, make_service, add_service, dispatch}
use golang_deep_distributed.Labrpc.Dispatch.{svc_meth, has_dot, find_method, dispatch-add_service}
use golang_deep_distributed.Labrpc.ClientEnd.{
  Codec, ReqMsg, returned, take_reply, make_request, call,
}

-- The polls see the end enabled and the server there.
abbrev pub AreAlive : ℕ → ℕ → ℕ → List Network → Type 0
AreAlive endname name server [] = Unit
AreAlive endname name server (rn ∷ polls) =
    (flag_at endname rn.enabled ≡ true)
    × (pointer_at name rn.servers ≡ some server)
    × AreAlive endname name server polls

-- The polls of the waiting loop, and then the reply of the server's `dispatch`, if it does not fail.
abbrev pub events_of : {S : Type 0} → Server S → S → List Network → ReqMsg → List Event
events_of rs st polls req = map elapsed polls ++ elim (dispatch rs req.svc_meth req.args st) [
  | some (reply, st', rs') ↦ handled reply ∷ []
  | none ↦ []
]

wait_reply-alive :
    (endname name server : ℕ) (polls : List Network) (r : ReplyMsg)
    → AreAlive endname name server polls
    → wait_reply endname name server (map elapsed polls ++ handled r ∷ []) ≡ replied r
unfolding wait_reply
wait_reply-alive endname name server [] r alive = refl
wait_reply-alive endname name server (rn ∷ polls) r (on, there, alive) = ground (
  arith,
  is_server_dead_alive endname name server rn on there,
  wait_reply-alive endname name server polls r alive,
)

-- In a reliable network, over an end that is enabled and connected to a server, which stay so until the
-- reply, a call of a method of a service on that server, where the method decodes its argument, applies a
-- handler and encodes its reply, into a reply with default values, returns true with the handler's reply, and
-- leaves the handler's state.
pub call_lem :
    {S A R : Type 0} (args_codec : Codec A) (reply_codec : Codec R) (handler : S → A → S × R)
    (rs : Server S) (service method : String) (ms : List (Method S)) (m : Method S) (st : S)
    (args : A) (rn after : Network) (draws : Draws) (polls : List Network) (endname name server : ℕ)
    → has_dot method ≡ false
    → find_method method ms none ≡ some m
    → ((u : S) (v : A)
        → m.call u (args_codec.encode v) ≡ ((handler u v).0, reply_codec.encode (handler u v).1))
    → rn.reliable ≡ true
    → flag_at endname rn.enabled ≡ true
    → pointer_at endname rn.connections ≡ some name
    → pointer_at name rn.servers ≡ some server
    → AreAlive endname name server polls
    → flag_at endname after.enabled ≡ true
    → pointer_at name after.servers ≡ some server
    → let rs' = add_service (make_service service ms) rs in
      let sent =
        λ (req : ReqMsg). process_req req.endname rn draws (events_of rs' st polls req) after in
      (call args_codec reply_codec endname
          (svc_meth service method)
          args
          reply_codec.blank
          false
          sent
        ≡ some (returned true (handler st args).1))
      × ((reply : ReplyMsg) × (dispatch rs' (svc_meth service method) (args_codec.encode args) st
            ≡ some (reply, (handler st args).0, record rs' { count = rs.count + 1 })))
unfolding call make_request take_reply
call_lem args_codec reply_codec handler rs service method ms m st args rn after draws polls endname
      name server plain found calls sure on to there alive on' there' =
    let rs' = add_service (make_service service ms) rs in
    let reply : ReplyMsg = record { ok = true; reply = reply_codec.encode (handler st args).1 } in
    let calls_it = calls st args in
    let run : dispatch rs' (svc_meth service method) (args_codec.encode args) st
        ≡ some (reply, (handler st args).0, record rs' { count = rs.count + 1 }) =
      dispatch-add_service rs service method ms m (args_codec.encode args) st plain found
      ∙ ap
          (λ out.
            some (record { ok = true; reply = out.1 }, out.0, record rs' { count = rs.count + 1 }))
          calls_it in
    let req : ReqMsg = record {
      endname = endname;
      svc_meth = svc_meth service method;
      args = args_codec.encode args;
    } in
    let events : events_of rs' st polls req ≡ map elapsed polls ++ handled reply ∷ [] =
      rw run refl in
    let sent : (process_req endname rn draws (events_of rs' st polls req) after).sent ≡ some reply =
      (process_req_iff endname rn draws (events_of rs' st polls req) after reply sure refl).1 (
        name,
        server,
        on,
        to,
        there,
        ap (wait_reply endname name server) events
            ∙ wait_reply-alive endname name server polls reply alive,
        on',
        there',
      ) in
    (
      ap (take_reply reply_codec reply_codec.blank) sent
          ∙ rw (reply_codec.decode-encode (handler st args).1) refl,
      (reply, run),
    )

-- ===== src/Labrpc/Requests.antt =====
-- When a request of labrpc/labrpc.go gets its reply, and that a deleted server's clients get none.
use golang_deep_distributed.Prelude.{
  ℕ, ◌%◌, ◌≡◌, ◌↔◌, inl, inr, true, false, not, ◌&&◌, ◌||◌, none, some, List, arith, ltb, ==_iff,
  Bool-cases, Option-cases,
}
use golang_deep_distributed.Prelude.Dict.{lookup-insert, nat_eq}
use golang_deep_distributed.Labrpc.Network.{
  ReplyMsg, Network, flag_at, pointer_at, delete_server, read_endname_info, is_server_dead, EndInfo,
  Event, Wait, replied, gave_up, waiting, wait_reply, Draws, finish, process_req,
}

-- The end is enabled and connected to a server that is there, the server's handler replies before a
-- poll finds the server dead, and the end and the server are still there afterwards.
abbrev pub Answers : ℕ → Network → List Event → Network → ReplyMsg → Type 0
Answers endname rn events after r =
    (name : ℕ) × (server : ℕ) × (flag_at endname rn.enabled ≡ true)
    × (pointer_at endname rn.connections ≡ some name)
    × (pointer_at name rn.servers ≡ some server)
    × (wait_reply endname name server events ≡ replied r)
    × (flag_at endname after.enabled ≡ true)
    × (pointer_at name after.servers ≡ some server)

is_server_dead-false :
    (endname name server : ℕ) (rn : Network)
    → is_server_dead endname name server rn ≡ false
    → (flag_at endname rn.enabled ≡ true) × (pointer_at name rn.servers ≡ some server)
unfolding is_server_dead
is_server_dead-false endname name server rn h = elim (Option-cases (pointer_at name rn.servers)) [
  | inl e ↦ absurd (ground (arith, e))
  | inr (p, e) ↦ (ground (arith, e), ground (arith, e, ==_iff p server))
]

pub is_server_dead_alive :
    (endname name server : ℕ) (rn : Network)
    → flag_at endname rn.enabled ≡ true
    → pointer_at name rn.servers ≡ some server
    → is_server_dead endname name server rn ≡ false
unfolding is_server_dead
is_server_dead_alive endname name server rn on there = ground (arith, ==_iff server server)

-- A successful reply is the handler's, of a server that is not dead when the wait is over.
finish-ok :
    (info : EndInfo) (draws : Draws) (endname name server : ℕ) (w : Wait) (after : Network)
    (r : ReplyMsg)
    → (finish info draws endname name server w after).sent ≡ some r
    → r.ok ≡ true
    → (w ≡ replied r) × (is_server_dead endname name server after ≡ false)
unfolding finish
finish-ok info draws endname name server waiting after r h good = absurd (ground arith)
finish-ok info draws endname name server gave_up after r h good = absurd (ground arith)
finish-ok info draws endname name server (replied r') after r h good =
    elim (Bool-cases (
      is_server_dead endname name server after
      || (not info.reliable && ltb (draws.response % 1000) 100))) [
        | inl lost ↦ absurd (ground (arith, lost))
        | inr kept ↦ (ground (arith, kept), ground (arith, kept))
      ]

process_req-Answers :
    (endname : ℕ) (rn : Network) (draws : Draws) (events : List Event) (after : Network)
    (r : ReplyMsg)
    → (process_req endname rn draws events after).sent ≡ some r
    → r.ok ≡ true
    → Answers endname rn events after r
unfolding process_req read_endname_info
process_req-Answers endname rn draws events after r h good =
    elim (Option-cases (pointer_at endname rn.connections)) [
      | inl e ↦ absurd (ground (arith, e))
      | inr (name, e) ↦ elim (Option-cases (pointer_at name rn.servers)) [
        | inl f ↦ absurd (ground (arith, e, f))
        | inr (server, f) ↦
            elim (Bool-cases (
              not (flag_at endname rn.enabled)
              || (not rn.reliable && ltb (draws.request % 1000) 100))) [
                | inl lost ↦ absurd (ground (arith, e, f, lost))
                | inr kept ↦
                    let ended : (finish (read_endname_info endname rn) draws endname name server
                          (wait_reply endname name server events) after).sent
                        ≡ some r =
                      ground (arith, e, f, kept) in
                    let (replies, alive) =
                      finish-ok (read_endname_info endname rn) draws endname name server
                        (wait_reply endname name server events) after r ended good in
                    let (on', there') = is_server_dead-false endname name server after alive in
                    (name, server, ground (arith, kept), e, f, replies, on', there')
              ]
      ]
    ]

-- In a reliable network a request is answered with a successful reply exactly if its end is enabled
-- and connected to a server that is there, that server's handler gives the reply before a poll finds
-- the server dead, and the end and the server are still there afterwards.
pub process_req_iff :
    (endname : ℕ) (rn : Network) (draws : Draws) (events : List Event) (after : Network)
    (r : ReplyMsg)
    → rn.reliable ≡ true
    → r.ok ≡ true
    → ((process_req endname rn draws events after).sent ≡ some r)
      ↔ Answers endname rn events after r
unfolding process_req read_endname_info finish
process_req_iff endname rn draws events after r sure good = (
  λ h. process_req-Answers endname rn draws events after r h good,
  λ a.
      let (name, server, on, to, there, replies, on', there') = a in
      ground (arith, is_server_dead_alive endname name server after on' there'),
)

-- Whatever the network does with a request, reliable or not, reordering or not: a server that is deleted
-- before the last look at it, after the wait for its handler, gives no successful reply to an end that
-- was connected to it, neither at once nor with a delay.
pub process_req-delete_server :
    (endname name : ℕ) (rn : Network) (draws : Draws) (events : List Event) (before : Network)
    (r : ReplyMsg)
    → pointer_at endname rn.connections ≡ some name
    → (process_req endname rn draws events (delete_server name before)).sent ≡ some r
    → r.ok ≡ false
process_req-delete_server endname name rn draws events before r to h = elim (Bool-cases r.ok) [
  | inr bad ↦ bad
  | inl good ↦
      let (name', server, on, to', there, replies, on', there') =
        process_req-Answers endname rn draws events (delete_server name before) r h good in
      let same : name' ≡ name = ground (arith, to, to') in
      let gone : pointer_at name (delete_server name before).servers ≡ none =
        unfold delete_server in
        ground (arith, lookup-insert name name none before.servers, ==_iff name name) in
      absurd (ground (arith, same, gone, there'))
]

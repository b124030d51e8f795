-- ===== src/Harness/One.antt =====
-- raft/config.go: `one`, a complete agreement on a command.
--
-- What the harness sees changes while `one` runs: the configuration at each look is `seen`. The rounds of
-- the outer loop are a list with the number of looks that the clock leaves to the inner loop of each.
use golang_deep_distributed.Prelude.{
  ℕ, zero, suc, ◌+◌, ◌%◌, ◌<◌, ◌≤◌, ◌≡◌, Bool, true, false, ◌&&◌, Option, none, some, List, [], ◌∷◌,
  ltb, leb, if◌then◌else◌, ◌>>=◌, get_elem?, inl, inr, arith, Bool-cases, Option-cases, subst, ap,
  sym, ◌∙◌, ◌↔◌, ℕ_discrete,
}
use golang_deep_distributed.Prelude.Dict.{Dict, lookup, nat_eq, Eq, option_beq, option_beq_iff}
use golang_deep_distributed.Persister.{Gob}
use golang_deep_distributed.Raft.State.{Raft, Value, ApplyMsg}
use golang_deep_distributed.Raft.Leader.{start}
use golang_deep_distributed.Harness.Config.{Config, n_committed, read_all}
use golang_deep_distributed.Harness.Agreement.{holds, IsFresh}
use golang_deep_distributed.Harness.Committed.{holders, n_committed_lem}

module _ {C B : Type 0} (gob : Gob (Value C) B) (eq : Eq C) (cmd : C) (seen : ℕ → Config C B) where
  -- A server's answer to `Start`, if it is connected and has a peer.
  unfoldable pub try_server : ℕ → Config C B → Option (Option ℕ)
  unfolding start
  try_server server cfg = get_elem? cfg.connected server >>= λ on.
      if on
      then (get_elem? cfg.rafts server >>= λ r. elim r [
        | none ↦ some none
        | some rf ↦ some (start gob rf cmd).1
      ])
      else some none

  -- The loop over the servers with `left` of them left: `starts`, the looks so far, and the index.
  unfoldable pub try_servers : ℕ → ℕ → ℕ → ℕ → Option (ℕ × ℕ × Option ℕ)
  unfolding try_server
  try_servers n zero starts look = some (starts, look, none)
  try_servers n (suc left) starts look =
      let server = (starts + 1) % n in
      let rest = try_servers n left server (look + 1) in
      try_server server (seen look) >>= λ index. elim index [
        | some i ↦ some (server, look + 1, some i)
        | none ↦ rest
      ]

  -- The inner loop: whether enough servers have the command under the index in one of the looks.
  unfoldable pub await : ℕ → ℕ → ℕ → ℕ → Option Bool
  unfolding n_committed
  await index expected zero look = some false
  await index expected (suc left) look =
      let rest = await index expected left (look + 1) in
      n_committed eq index (seen look) >>= λ (nd, cmd1).
      if (ltb 0 nd && leb expected nd) && option_beq eq.beq cmd1 (some cmd) then some true else rest

  -- A fatal error is `none`.
  unfoldable pub one_from : ℕ → ℕ → Bool → List ℕ → ℕ → ℕ → Option ℕ
  unfolding try_servers await
  one_from n expected retry [] starts look = none
  one_from n expected retry (looks ∷ rounds) starts look =
      let again = λ (starts' look' : ℕ). one_from n expected retry rounds starts' look' in
      try_servers n n starts look >>= λ (starts', look', found). elim found [
        | none ↦ again starts' look'
        | some index ↦ await index expected looks look' >>= λ agreed.
            if agreed then some index else if retry then again starts' (look' + looks) else none
      ]

  unfoldable pub one : ℕ → ℕ → Bool → List ℕ → Option ℕ
  unfolding one_from
  one n expected retry rounds = one_from n expected retry rounds 0 0

  -- A connected server's peer took the command and gave the index, and at a later look enough servers, and one at
  -- least, had the index, all with the command.
  pub record IsAgreed (expected index : ℕ) : Type 0 where
    pub look : ℕ
    pub server : ℕ
    pub peer : Raft C B
    pub on : get_elem? (seen look).connected server ≡ some true
    pub here : get_elem? (seen look).rafts server ≡ some (some peer)
    pub took : (start gob peer cmd).1 ≡ some index
    pub later : ℕ
    pub after : look < later
    pub enough : expected ≤ holders index (seen later).logs
    pub someone : 0 < holders index (seen later).logs
    pub same : (i : ℕ) (v : Option C) → holds (seen later).logs i index ≡ some v → v ≡ some cmd

  -- The first part of it.
  record IsTaken (index bound : ℕ) : Type 0 where
    look : ℕ
    server : ℕ
    peer : Raft C B
    on : get_elem? (seen look).connected server ≡ some true
    here : get_elem? (seen look).rafts server ≡ some (some peer)
    took : (start gob peer cmd).1 ≡ some index
    below : look < bound

  try_server-took :
      (server look index : ℕ)
      → try_server server (seen look) ≡ some (some index)
      → IsTaken index (look + 1)
  unfolding try_server
  try_server-took server look index h =
      elim (Option-cases (get_elem? (seen look).connected server)) [
        | inl e ↦ absurd (ground (arith, e, h))
        | inr (false, e) ↦ absurd (ground (arith, e, h))
        | inr (true, e) ↦ elim (Option-cases (get_elem? (seen look).rafts server)) [
          | inl f ↦ absurd (ground (arith, e, f, h))
          | inr (none, f) ↦ absurd (ground (arith, e, f, h))
          | inr (some rf, f) ↦ record {
            look = look;
            server = server;
            peer = rf;
            on = e;
            here = f;
            took = ground (arith, e, f, h);
            below = omega arith;
          }
        ]
      ]

  try_servers-took :
      (n left starts look starts' look' index : ℕ)
      → try_servers n left starts look ≡ some (starts', look', some index)
      → IsTaken index look'
  unfolding try_servers
  try_servers-took n zero starts look starts' look' index h = absurd (ground (arith, h))
  try_servers-took n (suc left) starts look starts' look' index h =
      let server = (starts + 1) % n in
      elim (Option-cases (try_server server (seen look))) [
        | inl e ↦ absurd (ground (arith, e, h))
        | inr (none, e) ↦
            try_servers-took n left server (look + 1) starts' look' index (ground (arith, e, h))
        | inr (some i, e) ↦
            let same : i ≡ index = ground (arith, e, h) in
            let after : look + 1 ≡ look' = ground (arith, e, h) in
            subst (IsTaken index) after
              (try_server-took server look index (e ∙ ap (λ k. some (some k)) same))
      ]

  -- Each look is at a configuration in which the readers accepted messages from a fresh one on.
  abbrev pub IsRead : Type 0
  IsRead =
      (look : ℕ)
      → (cfg : Config C B) × (msgs : List (ℕ × ApplyMsg C B)) × IsFresh cfg
        × (read_all eq msgs cfg ≡ some (seen look))

  -- In one of the looks of an inner loop enough servers, and one at least, had the index, all with the
  -- command.
  pub record IsDecided (expected index from looks : ℕ) : Type 0 where
    pub later : ℕ
    pub after : from ≤ later
    pub before : later < from + looks
    pub enough : expected ≤ holders index (seen later).logs
    pub someone : 0 < holders index (seen later).logs
    pub same : (i : ℕ) (v : Option C) → holds (seen later).logs i index ≡ some v → v ≡ some cmd

  await-IsDecided :
      (index expected looks look : ℕ)
      → IsRead
      → await index expected looks look ≡ some true
      → IsDecided expected index look looks
  unfolding await
  await-IsDecided index expected zero look read h = absurd (ground (arith, h))
  await-IsDecided index expected (suc left) look read h =
      let (cfg, msgs, fresh, accepted) = read look in
      let (cmd1, run, all) = n_committed_lem eq msgs cfg (seen look) index fresh accepted in
      let count = holders index (seen look).logs in
      elim (Bool-cases ((ltb 0 count && leb expected count) && option_beq eq.beq cmd1 (some cmd))) [
        | inl found ↦
            let is : cmd1 ≡ some cmd =
              (option_beq_iff eq cmd1 (some cmd)).0 (ground (arith, found)) in
            record {
              later = look;
              after = omega arith;
              before = omega arith;
              enough = ground (arith, found);
              someone = ground (arith, found);
              same = λ i v there. all i v there ∙ is;
            }
        | inr not_yet ↦
            let d =
              await-IsDecided index expected left (look + 1) read
                (ground (arith, h, run, not_yet)) in
            record {
              later = d.later;
              after = omega (arith, d.after);
              before = omega (arith, d.before);
              enough = d.enough;
              someone = d.someone;
              same = d.same;
            }
      ]

  one_from-IsAgreed :
      (n expected : ℕ) (retry : Bool) (rounds : List ℕ) (starts look index : ℕ)
      → IsRead
      → one_from n expected retry rounds starts look ≡ some index
      → IsAgreed expected index
  unfolding one_from
  one_from-IsAgreed n expected retry [] starts look index read h = absurd (ground (arith, h))
  one_from-IsAgreed n expected retry (looks ∷ rounds) starts look index read h =
      elim (Option-cases (try_servers n n starts look)) [
        | inl e ↦ absurd (ground (arith, e, h))
        | inr ((starts', look', none), e) ↦
            one_from-IsAgreed n expected retry rounds starts' look' index read
              (ground (arith, e, h))
        | inr ((starts', look', some i), e) ↦ elim (Option-cases (await i expected looks look')) [
          | inl f ↦ absurd (ground (arith, e, f, h))
          | inr (false, f) ↦ elim (Bool-cases retry) [
            | inl again ↦
                one_from-IsAgreed n expected retry rounds starts' (look' + looks) index read
                  (ground (arith, e, f, h, again))
            | inr once ↦ absurd (ground (arith, e, f, h, once))
          ]
          | inr (true, f) ↦
              let is : i ≡ index = ground (arith, e, f, h) in
              let t = try_servers-took n n starts look starts' look' i e in
              let d = await-IsDecided i expected looks look' read f in
              subst (IsAgreed expected) is (record {
                look = t.look;
                server = t.server;
                peer = t.peer;
                on = t.on;
                here = t.here;
                took = t.took;
                later = d.later;
                after = omega (arith, t.below, d.after);
                enough = d.enough;
                someone = d.someone;
                same = d.same;
              })
        ]
      ]

  -- Where the readers accepted all messages before each look, an index that `one` returns was given by a
  -- connected server's peer that took the command, and at a later look at least the expected number of
  -- servers, and at least one, had the index, and all that had it had the command there.
  pub one-IsAgreed :
      (n expected : ℕ) (retry : Bool) (rounds : List ℕ) (index : ℕ)
      → IsRead
      → one n expected retry rounds ≡ some index
      → IsAgreed expected index
  unfolding one
  one-IsAgreed n expected retry rounds index read h =
      one_from-IsAgreed n expected retry rounds 0 0 index read h

  one_holds :
      (index : ℕ) (logs : List (Dict ℕ (Option C)))
      → 0 < holders index logs
      → (i : ℕ) × (v : Option C) × (holds logs i index ≡ some v)
  one_holds index [] some_there = absurd (omega (arith, some_there))
  one_holds index (log ∷ logs) some_there = elim (Option-cases (lookup index log)) [
    | inr (v, e) ↦ (0, v, e)
    | inl e ↦
        let (i, v, at) = one_holds index logs (ground (arith, e, some_there)) in (suc i, v, at)
  ]

  await_decided :
      (index expected looks look : ℕ)
      → IsRead
      → IsDecided expected index look looks
      → await index expected looks look ≡ some true
  unfolding await
  await_decided index expected zero look read d = absurd (omega (arith, d.after, d.before))
  await_decided index expected (suc left) look read d =
      let (cfg, msgs, fresh, accepted) = read look in
      let (cmd1, run, all) = n_committed_lem eq msgs cfg (seen look) index fresh accepted in
      let count = holders index (seen look).logs in
      elim (Bool-cases ((ltb 0 count && leb expected count) && option_beq eq.beq cmd1 (some cmd))) [
        | inl found ↦ ground (arith, run, found)
        | inr not_yet ↦ elim (ℕ_discrete d.later look) [
          | yes now ↦
              let enough = subst (λ k. expected ≤ holders index (seen k).logs) now d.enough in
              let someone = subst (λ k. 0 < holders index (seen k).logs) now d.someone in
              let same =
                subst
                  (λ k.
                    (i : ℕ) (v : Option C) → holds (seen k).logs i index ≡ some v → v ≡ some cmd)
                  now d.same in
              let (i, v, at) = one_holds index (seen look).logs someone in
              let is : cmd1 ≡ some cmd = sym (all i v at) ∙ same i v at in
              absurd
                (ground (arith, enough, someone, (option_beq_iff eq cmd1 (some cmd)).1 is, not_yet))
          | no later ↦ ground (
            arith,
            run,
            not_yet,
            await_decided index expected left (look + 1) read (record {
              later = d.later;
              after = omega (arith, d.after, later);
              before = omega (arith, d.before);
              enough = d.enough;
              someone = d.someone;
              same = d.same;
            }),
          )
        ]
      ]

  -- Where the readers accepted all messages before each look, and the first pass over the servers finds one
  -- that takes the command under an index, `one` without retries returns that index exactly if in one of the
  -- looks of its first round at least the expected number of servers, and at least one, have the index, all
  -- with the command.
  pub one_iff :
      (n expected looks : ℕ) (rounds : List ℕ) (starts look index : ℕ)
      → IsRead
      → try_servers n n 0 0 ≡ some (starts, look, some index)
      → (one n expected false (looks ∷ rounds) ≡ some index) ↔ IsDecided expected index look looks
  unfolding one one_from
  one_iff n expected looks rounds starts look index read found = (
    λ h. elim (Option-cases (await index expected looks look)) [
      | inl e ↦ absurd (ground (arith, found, e, h))
      | inr (false, e) ↦ absurd (ground (arith, found, e, h))
      | inr (true, e) ↦ await-IsDecided index expected looks look read e
    ],
    λ d. ground (arith, found, await_decided index expected looks look read d),
  )

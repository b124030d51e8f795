-- ===== src/Harness/Ends.antt =====
-- What the loops of `connect` and `disconnect` in raft/config.go do to the ends of the network.
use golang_deep_distributed.Prelude.{
  ℕ, zero, suc, ◌≤◌, ◌<◌, ◌≡◌, refl, ap, ◌∙◌, ◌≢◌, inl, inr, Bool, true, false, not, ◌&&◌, ◌||◌,
  Option, none, some, List, [], ◌∷◌, arith, ◌==◌, if◌then◌else◌, Option-cases, ◌>>=◌, length,
  get_elem?, get_elem?_lt,
}
use golang_deep_distributed.Prelude.Dict.{nat_eq, lookup-insert}
use golang_deep_distributed.Labrpc.Network.{Network, flag_at, enable}
use golang_deep_distributed.Harness.Servers.{
  connect_outgoing, connect_incoming, disconnect_outgoing, disconnect_incoming,
}

-- The server is connected; no server is past the end of the list.
abbrev pub is_on : List Bool → ℕ → Bool
is_on [] a = false
is_on (on ∷ connected) zero = on
is_on (on ∷ connected) (suc a) = is_on connected a

-- The name by which server `a` sends to server `b`.
abbrev pub end_name : List (Option (List ℕ)) → ℕ → ℕ → Option ℕ
end_name [] a b = none
end_name (e ∷ endnames) zero b = e >>= λ names. get_elem? names b
end_name (e ∷ endnames) (suc a) b = end_name endnames a b

-- The network is the same but for what is enabled.
abbrev pub IsSame : Network → Network → Type 0
IsSame rn rn' = rn' ≡ record rn { enabled = rn'.enabled }

pub flag_at-enable :
    (name x : ℕ) (on : Bool) (rn : Network)
    → flag_at x (enable name on rn).enabled ≡ (if name == x then on else flag_at x rn.enabled)
unfolding enable
flag_at-enable name x on rn = ground (arith, lookup-insert name x on rn.enabled)

IsSame-enable : (name : ℕ) (on : Bool) (rn : Network) → IsSame rn (enable name on rn)
unfolding enable
IsSame-enable name on rn = refl

pub IsSame-trans : (a b c : Network) → IsSame a b → IsSame b c → IsSame a c
IsSame-trans a b c ab bc =
    let keep : Network → Network = λ rn. record rn { enabled = c.enabled } in bc ∙ ap keep ab

-- The ends that the loops of `connect` enable.
abbrev pub opens_outgoing : List Bool → List ℕ → ℕ → Bool
opens_outgoing [] names x = false
opens_outgoing (on ∷ connected) [] x = false
opens_outgoing (on ∷ connected) (name ∷ names) x =
    (on && name == x) || opens_outgoing connected names x

pub connect_outgoing_lem :
    (connected : List Bool) (names : List ℕ) (rn : Network)
    → length connected ≤ length names
    → (rn' : Network) × (connect_outgoing connected names rn ≡ some rn')
      × IsSame rn rn'
      × ((x : ℕ)
          → flag_at x rn'.enabled ≡ (opens_outgoing connected names x || flag_at x rn.enabled))
unfolding connect_outgoing
connect_outgoing_lem [] names rn le = (rn, refl, refl, λ x. refl)
connect_outgoing_lem (on ∷ connected) [] rn le = absurd (omega arith)
connect_outgoing_lem (true ∷ connected) (name ∷ names) rn le =
    let (rn', run, same, flags) =
      connect_outgoing_lem connected names (enable name true rn) (omega arith) in
    (
      rn',
      run,
      IsSame-trans rn (enable name true rn) rn' (IsSame-enable name true rn) same,
      λ x. ground (arith, flags x, flag_at-enable name x true rn),
    )
connect_outgoing_lem (false ∷ connected) (name ∷ names) rn le =
    let (rn', run, same, flags) = connect_outgoing_lem connected names rn (omega arith) in
    (rn', run, same, λ x. ground (arith, flags x))

-- The names, in an order, of what the loops over the incoming ends go through.
abbrev pub name_at : Option (List ℕ) → ℕ → Option ℕ
name_at e i = e >>= λ names. get_elem? names i

abbrev pub opens_incoming : ℕ → List Bool → List (Option (List ℕ)) → ℕ → Bool
opens_incoming i [] endnames x = false
opens_incoming i (on ∷ connected) [] x = false
opens_incoming i (on ∷ connected) (e ∷ endnames) x =
    (on && elim (name_at e i) [ some name ↦ name == x | none ↦ false ])
    || opens_incoming i connected endnames x

pub connect_incoming_lem :
    (i : ℕ) (connected : List Bool) (endnames : List (Option (List ℕ))) (rn : Network)
    → length connected ≤ length endnames
    → ((a : ℕ) → is_on connected a ≡ true → end_name endnames a i ≢ none)
    → (rn' : Network) × (connect_incoming i connected endnames rn ≡ some rn')
      × IsSame rn rn'
      × ((x : ℕ)
          → flag_at x rn'.enabled ≡ (opens_incoming i connected endnames x || flag_at x rn.enabled))
unfolding connect_incoming
connect_incoming_lem i [] endnames rn le named = (rn, refl, refl, λ x. refl)
connect_incoming_lem i (on ∷ connected) [] rn le named = absurd (omega arith)
connect_incoming_lem i (false ∷ connected) (e ∷ endnames) rn le named =
    let (rn', run, same, flags) =
      connect_incoming_lem i connected endnames rn (omega arith) (λ a. named (suc a)) in
    (rn', run, same, λ x. ground (arith, flags x))
connect_incoming_lem i (true ∷ connected) (none ∷ endnames) rn le named = absurd (named 0 refl refl)
connect_incoming_lem i (true ∷ connected) (some names ∷ endnames) rn le named =
    elim (Option-cases (get_elem? names i)) [
      | inl e ↦ absurd (named 0 refl e)
      | inr (name, e) ↦
          let (rn', run, same, flags) =
            connect_incoming_lem i connected endnames (enable name true rn) (omega arith)
              (λ a. named (suc a)) in
          (
            rn',
            ground (arith, e, run),
            IsSame-trans rn (enable name true rn) rn' (IsSame-enable name true rn) same,
            λ x. ground (arith, e, flags x, flag_at-enable name x true rn),
          )
    ]

-- The ends that the loops of `disconnect` disable.
abbrev pub closes_outgoing : List ℕ → ℕ → Bool
closes_outgoing [] x = false
closes_outgoing (name ∷ names) x = name == x || closes_outgoing names x

pub disconnect_outgoing_lem :
    (names : List ℕ) (rn : Network)
    → IsSame rn (disconnect_outgoing names rn)
      × ((x : ℕ)
          → flag_at x (disconnect_outgoing names rn).enabled
            ≡ (not (closes_outgoing names x) && flag_at x rn.enabled))
unfolding disconnect_outgoing
disconnect_outgoing_lem [] rn = (refl, λ x. refl)
disconnect_outgoing_lem (name ∷ names) rn =
    let (same, flags) = disconnect_outgoing_lem names (enable name false rn) in
    (
      IsSame-trans rn (enable name false rn) _ (IsSame-enable name false rn) same,
      λ x. ground (arith, flags x, flag_at-enable name x false rn),
    )

abbrev pub closes_incoming : ℕ → List (Option (List ℕ)) → ℕ → Bool
closes_incoming i [] x = false
closes_incoming i (e ∷ endnames) x =
    elim (name_at e i) [ some name ↦ name == x | none ↦ false ] || closes_incoming i endnames x

-- Each slice of names that is not nil has one for the server.
abbrev pub HasName : ℕ → List (Option (List ℕ)) → Type 0
HasName i endnames =
    (a : ℕ) (names : List ℕ) → get_elem? endnames a ≡ some (some names) → i < length names

pub disconnect_incoming_lem :
    (i : ℕ) (endnames : List (Option (List ℕ))) (rn : Network)
    → HasName i endnames
    → (rn' : Network) × (disconnect_incoming i endnames rn ≡ some rn')
      × IsSame rn rn'
      × ((x : ℕ)
          → flag_at x rn'.enabled ≡ (not (closes_incoming i endnames x) && flag_at x rn.enabled))
unfolding disconnect_incoming
disconnect_incoming_lem i [] rn named = (rn, refl, refl, λ x. refl)
disconnect_incoming_lem i (none ∷ endnames) rn named =
    disconnect_incoming_lem i endnames rn (λ a. named (suc a))
disconnect_incoming_lem i (some names ∷ endnames) rn named =
    let (name, e) = get_elem?_lt names i (named 0 names refl) in
    let (rn', run, same, flags) =
      disconnect_incoming_lem i endnames (enable name false rn) (λ a. named (suc a)) in
    (
      rn',
      ground (arith, e, run),
      IsSame-trans rn (enable name false rn) rn' (IsSame-enable name false rn) same,
      λ x. ground (arith, e, flags x, flag_at-enable name x false rn),
    )

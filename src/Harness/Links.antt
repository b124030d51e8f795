-- ===== src/Harness/Links.antt =====
-- What `connectUnlocked` and `disconnectUnlocked` of kvraft/config.go leave enabled.
use golang_deep_distributed.Prelude.{
  ℕ, ◌+◌, ◌≤◌, ◌<◌, ◌≡◌, refl, ap, ◌∙◌, subst, Bool, true, false, ◌&&◌, ◌||◌, Option, some, List,
  [], ◌∷◌, arith, ◌==◌, if◌then◌else◌, length, get_elem?, get_elem?_lt,
}
use golang_deep_distributed.Labrpc.Network.{Network, flag_at, enable}
use golang_deep_distributed.Harness.Ends.{end_name, flag_at-enable}
use golang_deep_distributed.Harness.Touched.{bool_iff, AreDistinct, end_name-get_elem?}
use golang_deep_distributed.Harness.Service.{
  switch_outgoing, connect_from, connect_unlocked, disconnect_from, disconnect_unlocked,
}

abbrev pub is_in : ℕ → List ℕ → Bool
is_in a [] = false
is_in a (b ∷ bs) = b == a || is_in a bs

abbrev pub AreBelow : ℕ → List ℕ → Type 0
AreBelow n [] = Unit
AreBelow n (b ∷ bs) = (b < n) × AreBelow n bs

-- There are `n` servers, each with a name for each, and no name twice.
pub record IsNet (n : ℕ) (endnames : List (Option (List ℕ))) : Type 0 where
  pub servers : length endnames ≡ n
  pub names :
      (a : ℕ) → a < n → (ns : List ℕ) × (get_elem? endnames a ≡ some (some ns)) × (length ns ≡ n)
  pub distinct : AreDistinct endnames

module _ (n : ℕ) (endnames : List (Option (List ℕ))) (net : IsNet n endnames) where
  same_end :
      (i j a b name x : ℕ)
      → end_name endnames i j ≡ some name
      → end_name endnames a b ≡ some x
      → (name == x) ≡ (a == i && b == j)
  same_end i j a b name x here h =
      bool_iff _ _
        (λ e.
          let same : name ≡ x = ground (arith, e) in
          ground (arith, net.distinct i j a b x (here ∙ ap some same) h))
        (λ e.
          let ai : a ≡ i = ground (arith, e) in
          let bj : b ≡ j = ground (arith, e) in
          let there : end_name endnames i j ≡ some x =
            subst (λ c. end_name endnames c j ≡ some x) ai
              (subst (λ d. end_name endnames a d ≡ some x) bj h) in
          ground (arith, here, there))

  -- The network after the ends that satisfy a test were enabled or disabled.
  abbrev pub Switched : Bool → (ℕ → ℕ → Bool) → Network → Network → Type 0
  Switched on test rn rn' =
      (a b x : ℕ)
      → end_name endnames a b ≡ some x
      → flag_at x rn'.enabled ≡ (if test a b then on else flag_at x rn.enabled)

  outgoing_lem :
      (on : Bool) (i : ℕ) (to : List ℕ) (rn : Network) {ns : List ℕ}
      → get_elem? endnames i ≡ some (some ns)
      → length ns ≡ n
      → AreBelow n to
      → (rn' : Network) × (switch_outgoing on ns to rn ≡ some rn')
        × Switched on (λ a b. a == i && is_in b to) rn rn'
  unfolding switch_outgoing
  outgoing_lem on i [] rn mine len below = (rn, refl, λ a b x h. ground arith)
  outgoing_lem on i (j ∷ to) rn {ns} mine len below =
      let (name, at) = get_elem?_lt ns j (ground (arith, len, below.0)) in
      let (rn', run, flags) = outgoing_lem on i to (enable name on rn) mine len below.1 in
      let here : end_name endnames i j ≡ some name = end_name-get_elem? endnames i j mine ∙ at in
      (
        rn',
        ground (arith, at, run),
        λ a b x h.
            ground
              (arith, flags a b x h, flag_at-enable name x on rn, same_end i j a b name x here h),
      )

  connect_from_lem :
      (i : ℕ) (to : List ℕ) (rn : Network)
      → i < n
      → AreBelow n to
      → (rn' : Network) × (connect_from endnames i to rn ≡ some rn')
        × Switched true (λ a b. b == i && is_in a to) rn rn'
  unfolding connect_from
  connect_from_lem i [] rn lt below = (rn, refl, λ a b x h. ground arith)
  connect_from_lem i (j ∷ to) rn lt below =
      let (ns, theirs, len) = net.names j below.0 in
      let (name, at) = get_elem?_lt ns i (ground (arith, len, lt)) in
      let (rn', run, flags) = connect_from_lem i to (enable name true rn) lt below.1 in
      let here : end_name endnames j i ≡ some name = end_name-get_elem? endnames j i theirs ∙ at in
      (
        rn',
        ground (arith, theirs, at, run),
        λ a b x h.
            ground
              (arith, flags a b x h, flag_at-enable name x true rn, same_end j i a b name x here h),
      )

  disconnect_from_lem :
      (i k : ℕ) (from : List ℕ) (rn : Network)
      → i < n
      → k + length from ≤ n
      → AreBelow n from
      → (rn' : Network) × (disconnect_from endnames i k from rn ≡ some rn')
        × Switched false (λ a b. b == i && is_in a from) rn rn'
  unfolding disconnect_from
  disconnect_from_lem i k [] rn lt few below = (rn, refl, λ a b x h. ground arith)
  disconnect_from_lem i k (j ∷ from) rn lt few below =
      let (ns, theirs, len) = net.names j below.0 in
      let (gs, guard, len') = net.names k (omega (arith, few)) in
      let (name, at) = get_elem?_lt ns i (ground (arith, len, lt)) in
      let (rn', run, flags) =
        disconnect_from_lem i (k + 1) from (enable name false rn) lt (omega (arith, few)) below.1 in
      let here : end_name endnames j i ≡ some name = end_name-get_elem? endnames j i theirs ∙ at in
      (
        rn',
        ground (arith, theirs, guard, at, run),
        λ a b x h.
            ground (
              arith,
              flags a b x h,
              flag_at-enable name x false rn,
              same_end j i a b name x here h,
            ),
      )

  -- The end is between the server and one of the list.
  abbrev pub is_between : ℕ → List ℕ → ℕ → ℕ → Bool
  is_between i others a b = (a == i && is_in b others) || (b == i && is_in a others)

  pub connect_unlocked_lem :
      (i : ℕ) (to : List ℕ) (rn : Network)
      → i < n
      → AreBelow n to
      → (rn' : Network) × (connect_unlocked endnames i to rn ≡ some rn')
        × Switched true (is_between i to) rn rn'
  unfolding connect_unlocked
  connect_unlocked_lem i to rn lt below =
      let (ns, mine, len) = net.names i lt in
      let (rn1, run1, flags1) = outgoing_lem true i to rn mine len below in
      let (rn2, run2, flags2) = connect_from_lem i to rn1 lt below in
      (
        rn2,
        ground (arith, mine, run1, run2),
        λ a b x h. ground (arith, flags1 a b x h, flags2 a b x h),
      )

  pub disconnect_unlocked_lem :
      (i : ℕ) (from : List ℕ) (rn : Network)
      → i < n
      → length from ≤ n
      → AreBelow n from
      → (rn' : Network) × (disconnect_unlocked endnames i from rn ≡ some rn')
        × Switched false (is_between i from) rn rn'
  unfolding disconnect_unlocked
  disconnect_unlocked_lem i from rn lt few below =
      let (ns, mine, len) = net.names i lt in
      let (rn1, run1, flags1) = outgoing_lem false i from rn mine len below in
      let (rn2, run2, flags2) = disconnect_from_lem i 0 from rn1 lt (omega (arith, few)) below in
      (
        rn2,
        ground (arith, mine, run1, run2),
        λ a b x h. ground (arith, flags1 a b x h, flags2 a b x h),
      )

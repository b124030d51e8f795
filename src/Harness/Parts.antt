-- ===== src/Harness/Parts.antt =====
-- What `partition` of kvraft/config.go leaves enabled.
use golang_deep_distributed.Prelude.{
  ℕ, ◌≤◌, ◌<◌, ◌≡◌, refl, inl, inr, Bool, true, false, ◌&&◌, ◌||◌, Option, none, some, List, [],
  ◌∷◌, arith, ◌==◌, if◌then◌else◌, Bool-cases, Option-cases, length, get_elem?_lt,
}
use golang_deep_distributed.Labrpc.Network.{Network, flag_at}
use golang_deep_distributed.Harness.Ends.{end_name}
use golang_deep_distributed.Harness.Touched.{end_name-get_elem?}
use golang_deep_distributed.Harness.Service.{separate, partition}
use golang_deep_distributed.Harness.Links.{
  is_in, AreBelow, IsNet, connect_unlocked_lem, disconnect_unlocked_lem,
}

module _ (n : ℕ) (endnames : List (Option (List ℕ))) (net : IsNet n endnames) where
  -- The end is between a server of one list and one of another.
  abbrev joins : List ℕ → List ℕ → ℕ → ℕ → Bool
  joins us vs a b = (is_in a us && is_in b vs) || (is_in b us && is_in a vs)

  separate_lem :
      (own others rest : List ℕ) (rn : Network)
      → ((c : ℕ) → is_in c own ≡ true → is_in c others ≡ false)
      → ((c : ℕ) → is_in c rest ≡ true → is_in c own ≡ true)
      → length others ≤ n
      → AreBelow n own
      → AreBelow n others
      → AreBelow n rest
      → (rn' : Network) × (separate endnames own others rest rn ≡ some rn')
        × ((a b x : ℕ)
            → end_name endnames a b ≡ some x
            → flag_at x rn'.enabled ≡ (
                if joins rest own a b
                then true
                else if joins rest others a b
                then false
                else flag_at x rn.enabled))
  unfolding separate
  separate_lem own others [] rn apart part few below below' inside =
      (rn, refl, λ a b x h. ground arith)
  separate_lem own others (i ∷ rest) rn apart part few below below' inside =
      let (rn1, run1, flags1) =
        disconnect_unlocked_lem n endnames net i others rn inside.0 few below' in
      let (rn2, run2, flags2) = connect_unlocked_lem n endnames net i own rn1 inside.0 below in
      let (rn3, run3, flags3) =
        separate_lem own others rest rn2 apart (λ c h. part c (ground (arith, h))) few below below'
          inside.1 in
      (
        rn3,
        ground (arith, run1, run2, run3),
        λ a b x h. ground (
          arith,
          flags1 a b x h,
          flags2 a b x h,
          flags3 a b x h,
          apart a,
          apart b,
          part a,
          part b,
        ),
      )

  -- The end by which a server sends to another is enabled.
  abbrev pub is_enabled : Network → ℕ → ℕ → Bool
  is_enabled rn a b = elim (end_name endnames a b) [ some x ↦ flag_at x rn.enabled | none ↦ false ]

  pub lt_of_is_in : (a : ℕ) (us : List ℕ) → AreBelow n us → is_in a us ≡ true → a < n
  lt_of_is_in a [] below h = absurd (ground (arith, h))
  lt_of_is_in a (u ∷ us) below h = elim (Bool-cases (u == a)) [
    | inl this ↦ ground (arith, this, below.0)
    | inr other ↦ lt_of_is_in a us below.1 (ground (arith, h, other))
  ]

  no_end :
      (a b : ℕ) (us vs : List ℕ)
      → AreBelow n us
      → AreBelow n vs
      → end_name endnames a b ≡ none
      → (is_in a us && is_in b vs) ≡ false
  no_end a b us vs below below' missing = elim (Bool-cases (is_in a us && is_in b vs)) [
    | inr apart ↦ apart
    | inl both ↦
        let (ns, mine, len) = net.names a (lt_of_is_in a us below (ground (arith, both))) in
        let (x, at) =
          get_elem?_lt ns b (ground (arith, len, lt_of_is_in b vs below' (ground (arith, both)))) in
        absurd (ground (arith, end_name-get_elem? endnames a b mine, at, missing))
  ]

  -- `partition` of two lists of servers without a common one, neither longer than the number of servers,
  -- runs without a fault. Then an end is enabled if its servers are in the same part, disabled if they
  -- are in different parts, and as it was if one is in neither.
  pub partition_lem :
      (p1 p2 : List ℕ) (rn : Network)
      → ((c : ℕ) → is_in c p1 ≡ true → is_in c p2 ≡ false)
      → length p1 ≤ n
      → length p2 ≤ n
      → AreBelow n p1
      → AreBelow n p2
      → (rn' : Network) × (partition endnames p1 p2 rn ≡ some rn')
        × ((a b : ℕ)
            → is_enabled rn' a b ≡ (
                if (is_in a p1 && is_in b p1) || (is_in a p2 && is_in b p2)
                then true
                else if (is_in a p1 && is_in b p2) || (is_in a p2 && is_in b p1)
                then false
                else is_enabled rn a b))
  unfolding partition
  partition_lem p1 p2 rn apart few few' below below' =
      let (rn1, run1, flags1) = separate_lem p1 p2 p1 rn apart (λ c h. h) few' below below' below in
      let (rn2, run2, flags2) =
        separate_lem p2 p1 p2 rn1 (λ c h. ground (arith, h, apart c)) (λ c h. h) few below' below
          below' in
      (
        rn2,
        ground (arith, run1, run2),
        λ a b. elim (Option-cases (end_name endnames a b)) [
          | inl e ↦
              ground (arith, e, no_end a b p1 p1 below below e, no_end a b p2 p2 below' below' e)
          | inr (x, e) ↦ ground (arith, e, flags1 a b x e, flags2 a b x e, apart a, apart b)
        ],
      )

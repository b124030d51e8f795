-- ===== src/Harness/KvClients.antt =====
-- The clients that `makeClient` of kvraft/config.go makes, and the shuffle of their ends.
use golang_deep_distributed.Prelude.{
  ℕ_discrete, ℕ, zero, suc, ◌+◌, ◌%◌, ◌<◌, ◌≡◌, refl, sym, ap, ◌∙◌, subst, ◌≢◌, ◌⊎◌, inl, inr, Bool,
  true, false, none, some, List, [], ◌∷◌, map, arith, ◌==◌, if◌then◌else◌, length, get_elem?, set,
  length-set, get_elem?_lt, get_elem?-set_self, get_elem?-set_ne,
}
use golang_deep_distributed.Prelude.Dict.{lookup, insert, nat_eq, lookup-insert}
use golang_deep_distributed.Labrpc.Network.{
  Network, flag_at, pointer_at, enable, make_end, connect as connect_end,
}
use golang_deep_distributed.Kv.Clerk.{Clerk, make_clerk}
use golang_deep_distributed.Harness.Servers.{make_ends}
use golang_deep_distributed.Harness.Service.{switch_outgoing}
use golang_deep_distributed.Harness.Ends.{flag_at-enable}
use golang_deep_distributed.Harness.Links.{is_in, AreBelow}
use golang_deep_distributed.Harness.Starting.{Makes, has, first, make_ends-Makes}
use golang_deep_distributed.Harness.Made.{length-first}
use golang_deep_distributed.Harness.KvConfig.{
  KvConfig, swap, random_from, random_handles, make_client, connect_client_unlocked,
}
use golang_deep_distributed.Harness.FreshEnds.{AreFresh, AreFresh-insert, make_ends_total}

-- How many elements pass a test.
unfoldable pub count_of {ℓ} : {A : Type ℓ} → (A → Bool) → List A → ℕ
count_of p [] = 0
count_of p (x ∷ xs) = let rest = count_of p xs in if p x then suc rest else rest

module _ {ℓ} {A : Type ℓ} where
  count_of-set :
      (p : A → Bool) (xs : List A) (i : ℕ) (a b : A)
      → get_elem? xs i ≡ some a
      → count_of p (set xs i b) + (if p a then 1 else 0) ≡ count_of p xs + (if p b then 1 else 0)
  unfolding count_of
  count_of-set p [] i a b at = absurd (ground (arith, at))
  count_of-set p (x ∷ xs) zero a b at =
      let is : x ≡ a = ground (arith, at) in ground (arith, ap p is)
  count_of-set p (x ∷ xs) (suc i) a b at = ground (arith, count_of-set p xs i a b at)

  swap_lem :
      (i j : ℕ) (xs : List A)
      → i < length xs
      → j < length xs
      → (ys : List A) × (swap i j xs ≡ some ys)
        × (length ys ≡ length xs)
        × ((p : A → Bool) → count_of p ys ≡ count_of p xs)
  unfolding swap
  swap_lem i j xs lt lt' =
      let (a, at) = get_elem?_lt xs i lt in
      let (b, at') = get_elem?_lt xs j lt' in
      let now : get_elem? (set xs i b) j ≡ some b = elim (ℕ_discrete i j) [
        | yes e ↦ subst (λ u. get_elem? (set xs i b) u ≡ some b) e (get_elem?-set_self xs i b lt)
        | no ne ↦ get_elem?-set_ne xs i j b ne ∙ at'
      ] in
      (
        set (set xs i b) j a,
        ground (arith, at, at'),
        length-set (set xs i b) j a ∙ length-set xs i b,
        λ p. omega (arith, count_of-set p xs i a b at, count_of-set p (set xs i b) j b a now),
      )

  random_from_lem :
      (draw : ℕ → ℕ) (i left : ℕ) (xs : List A)
      → i + left ≡ length xs
      → (ys : List A) × (random_from draw i left xs ≡ some ys)
        × (length ys ≡ length xs)
        × ((p : A → Bool) → count_of p ys ≡ count_of p xs)
  unfolding random_from
  random_from_lem draw i zero xs len = (xs, refl, refl, λ p. refl)
  random_from_lem draw i (suc left) xs len =
      let (mid, run, size, same) =
        swap_lem i (draw i % (i + 1)) xs (omega (arith, len)) (omega (arith, len)) in
      let (ys, runs, size', same') =
        random_from_lem draw (i + 1) left mid (omega (arith, len, size)) in
      (ys, ground (arith, run, runs), size' ∙ size, λ p. same' p ∙ same p)

  -- `random_handles` does not fail, and its result has the same handles as often: as many pass any test.
  pub random_handles_lem :
      (draw : ℕ → ℕ) (kvh : List A)
      → (sa : List A) × (random_handles draw kvh ≡ some sa)
        × (length sa ≡ length kvh)
        × ((p : A → Bool) → count_of p sa ≡ count_of p kvh)
  unfolding random_handles
  random_handles_lem draw kvh = random_from_lem draw 0 (length kvh) kvh (omega arith)

-- No two names are the same.
abbrev AreDifferent : List ℕ → Type 0
AreDifferent names = (b d x : ℕ) → get_elem? names b ≡ some x → get_elem? names d ≡ some x → b ≡ d

switch_outgoing_lem :
    (on : Bool) (names to : List ℕ) (rn : Network)
    → AreDifferent names
    → AreBelow (length names) to
    → (rn' : Network) × (switch_outgoing on names to rn ≡ some rn')
      × (rn'.connections ≡ rn.connections)
      × ((j x : ℕ)
          → get_elem? names j ≡ some x
          → flag_at x rn'.enabled ≡ (if is_in j to then on else flag_at x rn.enabled))
      × ((x : ℕ)
          → ((j : ℕ) → get_elem? names j ≢ some x)
          → flag_at x rn'.enabled ≡ flag_at x rn.enabled)
unfolding switch_outgoing enable
switch_outgoing_lem on names [] rn differ below =
    (rn, refl, refl, λ j x at. ground arith, λ x out. refl)
switch_outgoing_lem on names (k ∷ to) rn differ below =
    let (name, there) = get_elem?_lt names k below.0 in
    let (rn', run, same, flags, others) =
      switch_outgoing_lem on names to (enable name on rn) differ below.1 in
    (
      rn',
      ground (arith, there, run),
      same,
      λ j x at. ground (arith, flags j x at, flag_at-enable name x on rn, differ k j x, there, at),
      λ x out. ground (arith, others x out, flag_at-enable name x on rn, out k, there),
    )

at_cons :
    (y : ℕ) (ys : List ℕ) (b x : ℕ)
    → get_elem? (y ∷ ys) b ≡ some x
    → ((b ≡ 0) × (y ≡ x)) ⊎ ((c : ℕ) × (b ≡ 1 + c) × (get_elem? ys c ≡ some x))
at_cons y ys zero x at = inl (refl, ground (arith, at))
at_cons y ys (suc c) x at = inr (c, omega arith, at)

-- The ends that are made are connected each to its server; others keep their connection and their flag.
make_ends-connections :
    (j : ℕ) (names : List (ℕ × ℕ)) (rn rn' : Network)
    → AreFresh names rn.ends
    → make_ends j names rn ≡ some rn'
    → ((b x : ℕ)
        → get_elem? (map first names) b ≡ some x
        → pointer_at x rn'.connections ≡ some (j + b))
      × ((x : ℕ) → has names x ≡ false → pointer_at x rn'.connections ≡ pointer_at x rn.connections)
unfolding make_ends make_end connect_end
make_ends-connections j [] rn rn' fresh h =
    let same : rn ≡ rn' = ground (arith, h) in
    (
      λ b x at. absurd (ground (arith, at)),
      λ x out. ap (λ r. pointer_at x r.connections) (sym same),
    )
make_ends-connections j ((name, pointer) ∷ names) rn rn' (new, once, rest) h =
    let next : Network = record rn {
      ends = insert name pointer rn.ends;
      enabled = insert name false rn.enabled;
      connections = insert name (some j) (insert name none rn.connections);
    } in
    let made : make_ends (j + 1) names next ≡ some rn' = ground (arith, new, h) in
    let (named, others) =
      make_ends-connections (j + 1) names next rn'
        (AreFresh-insert names rn.ends name pointer once rest) made in
    let at_next : (x : ℕ)
        → pointer_at x next.connections
          ≡ (if name == x then some j else pointer_at x rn.connections) =
      λ x. ground (
        arith,
        lookup-insert name x (some j) (insert name none rn.connections),
        lookup-insert name x none rn.connections,
      ) in
    (
      λ b x at. elim (at_cons name (map first names) b x at) [
        | inl (start, is) ↦
            let absent : has names x ≡ false = subst (λ u. has names u ≡ false) is once in
            ground (arith, others x absent, at_next x, is, start)
        | inr (c, after, there) ↦ named c x there ∙ ap some (omega (arith, after))
      ],
      λ x out. ground (arith, others x, at_next x, out),
    )

-- A client as `makeClient` makes it: its end to each server is connected to that server, and enabled
-- exactly if the server is in the list; no end of another has changed; and its ends in the order in which it
-- tries them are those that were made.
pub record IsClient {B : Type 0} (to : List ℕ) (names : List (ℕ × ℕ)) (pointer : ℕ)
    (handles : List ℕ) (cfg cfg' : KvConfig B) : Type 0 where
  pub known : lookup pointer cfg'.clerks ≡ some (map first names)
  pub enabled :
      (j x : ℕ) → get_elem? (map first names) j ≡ some x → flag_at x cfg'.net.enabled ≡ is_in j to
  pub connected :
      (j x : ℕ)
      → get_elem? (map first names) j ≡ some x
      → pointer_at x cfg'.net.connections ≡ some j
  pub others :
      (x : ℕ)
      → has names x ≡ false
      → (flag_at x cfg'.net.enabled ≡ flag_at x cfg.net.enabled)
        × (pointer_at x cfg'.net.connections ≡ pointer_at x cfg.net.connections)
  pub ends : (p : ℕ → Bool) → count_of p handles ≡ count_of p (map (λ (name, end). end) names)

length-second : (names : List (ℕ × ℕ)) → length (map (λ (name, end). end) names) ≡ length names
length-second [] = refl
length-second (name ∷ names) = ap suc (length-second names)

has-at :
    (names : List (ℕ × ℕ)) (j x : ℕ) → get_elem? (map first names) j ≡ some x → has names x ≡ true
has-at [] j x at = absurd (ground (arith, at))
has-at ((name, p) ∷ names) zero x at = ground (arith, at)
has-at ((name, p) ∷ names) (suc j) x at = ground (arith, has-at names j x at)

-- Where the names of the ends are fresh and differ, the servers in the list have a name, and `MakeClerk` finds an
-- id, `makeClient` does not fail; each end of the client is connected to its server and enabled exactly if the server is
-- in the list, no other end changes, and the client's ends are those made, in some order.
pub make_client_lem :
    {B : Type 0} (to : List ℕ) (names : List (ℕ × ℕ)) (pointer : ℕ) (draw : ℕ → ℕ)
    (ids clients clients' : List ℕ) (ck : Clerk) (cfg : KvConfig B)
    → AreFresh names cfg.net.ends
    → AreBelow (length names) to
    → make_clerk (length names) ids clients ≡ some (ck, clients')
    → (handles : List ℕ) × (cfg' : KvConfig B) × (make_client to names pointer draw ids clients cfg
        ≡ some (ck, handles, clients', cfg'))
      × IsClient to names pointer handles cfg cfg'
unfolding make_client connect_client_unlocked
make_client_lem {B} to names pointer draw ids clients clients' ck cfg fresh below clerk =
    let (net, made) = make_ends_total 0 names cfg.net fresh in
    let m : Makes names cfg.net net = make_ends-Makes 0 names cfg.net net made in
    let (named, kept) = make_ends-connections 0 names cfg.net net fresh made in
    let ends = map (λ (name, end). end) names in
    let (handles, shuffled, size, same) = random_handles_lem draw ends in
    let mid : KvConfig B = record cfg {
      net = net;
      clerks = insert pointer (map first names) cfg.clerks;
      next_client_id = cfg.next_client_id + 1;
    } in
    let found : lookup pointer mid.clerks ≡ some (map first names) =
      lookup-insert pointer pointer (map first names) cfg.clerks ∙ ground arith in
    let (rn, run, links, flags, rest) =
      switch_outgoing_lem true (map first names) to net m.differ
        (subst (λ n. AreBelow n to) (sym (length-first names)) below) in
    let count : make_clerk (length handles) ids clients ≡ some (ck, clients') =
      ap (λ n. make_clerk n ids clients) (size ∙ length-second names) ∙ clerk in
    (
      handles,
      record mid { net = rn },
      ground (arith, made, shuffled, count, found, run),
      record {
        known = found;
        enabled = λ j x at. ground (arith, flags j x at, m.flags x, has-at names j x at);
        connected = λ j x at. ap (pointer_at x) links ∙ named j x at ∙ ap some (omega arith);
        others = λ x out. (
          rest x (λ j at. ground (arith, out, has-at names j x at))
              ∙ ground (arith, m.flags x, out),
          ap (pointer_at x) links ∙ kept x out,
        );
        ends = same;
      },
    )

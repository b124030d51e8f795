-- ===== src/Harness/KvMade.antt =====
-- What `make_config` of kvraft/config.go gives: all servers started and all ends between them enabled; and
-- what `partition` does with the parts of `make_partition`.
use golang_deep_distributed.Prelude.{
  ℕ, zero, suc, ◌+◌, ◌%◌, ◌≤◌, ◌<◌, ◌≡◌, refl, sym, ap, ◌∙◌, subst, ◌↔◌, ◌⊎◌, inl, inr, Bool, true,
  false, not, ◌&&◌, ◌||◌, Option, none, some, List, [], ◌∷◌, arith, ltb, leb, if◌then◌else◌,
  Bool-cases, Option-cases, length, get_elem?, get_elem?_lt,
}
use golang_deep_distributed.Persister.{Gob, make_persister}
use golang_deep_distributed.Labrpc.Network.{Network, flag_at, set_reliable}
use golang_deep_distributed.Raft.State.{Value as RaftValue, get_state}
use golang_deep_distributed.Kv.State.{Op, KvServer, Value}
use golang_deep_distributed.Kv.Apply.{start_kv_server}
use golang_deep_distributed.Harness.Ends.{end_name}
use golang_deep_distributed.Harness.Touched.{end_name-get_elem?}
use golang_deep_distributed.Harness.Service.{partition}
use golang_deep_distributed.Harness.Links.{is_in, AreBelow, IsNet, connect_unlocked_lem}
use golang_deep_distributed.Harness.Parts.{is_enabled, partition_lem, lt_of_is_in}
use golang_deep_distributed.Harness.MakeConfig.{AreSized}
use golang_deep_distributed.Harness.KvConfig.{
  KvConfig, all, all_from, connect_all, connect_from_all, start_servers, make_config, empty_config,
  leader, leader_from, make_partition,
}
use golang_deep_distributed.Harness.KvStart.{IsBegun, start_servers-IsBegun, empty_config-IsBegun}
use golang_deep_distributed.Harness.Minority.{IsSplit, partition_around-IsSplit}

is_in-all_from : (i left a : ℕ) → is_in a (all_from i left) ≡ (leb i a && ltb a (i + left))
unfolding all_from
is_in-all_from i zero a = ground arith
is_in-all_from i (suc left) a = ground (arith, is_in-all_from (i + 1) left a)

pub AreBelow-all_from : (n i left : ℕ) → i + left ≤ n → AreBelow n (all_from i left)
unfolding all_from
AreBelow-all_from n i zero fits = tt
AreBelow-all_from n i (suc left) fits =
    (omega (arith, fits), AreBelow-all_from n (i + 1) left (omega (arith, fits)))

module _ {B : Type 0} where
  connect_from_all_lem :
      (i left : ℕ) (cfg : KvConfig B) (net : IsNet cfg.n cfg.endnames)
      → i + left ≡ cfg.n
      → (rn' : Network) × (connect_from_all i left cfg ≡ some (record cfg { net = rn' }))
        × ((a b x : ℕ)
            → a < cfg.n
            → b < cfg.n
            → end_name cfg.endnames a b ≡ some x
            → flag_at x rn'.enabled
              ≡ (if leb i a || leb i b then true else flag_at x cfg.net.enabled))
  unfolding connect_from_all all
  connect_from_all_lem i zero cfg net len =
      (cfg.net, refl, λ a b x below below' h. ground (arith, below, below', len))
  connect_from_all_lem i (suc left) cfg net len =
      let (rn1, run1, flags1) =
        connect_unlocked_lem cfg.n cfg.endnames net i (all cfg.n) cfg.net (omega (arith, len))
          (AreBelow-all_from cfg.n 0 cfg.n (omega arith)) in
      let (rn2, run2, flags2) =
        connect_from_all_lem (i + 1) left (record cfg { net = rn1 }) net (omega (arith, len)) in
      (
        rn2,
        ground (arith, run1, run2),
        λ a b x below below' h. ground (
          arith,
          below,
          below',
          flags1 a b x h,
          flags2 a b x below below' h,
          is_in-all_from 0 cfg.n a,
          is_in-all_from 0 cfg.n b,
        ),
      )

-- The servers are started, each on an empty persister, no two ends have one name, and the end between
-- any two servers is enabled.
pub record IsUp {B : Type 0} (rgob : Gob (RaftValue Op) B) (kgob : Gob Value B) (cfg : KvConfig B)
    : Type 0 where
  pub net : IsNet cfg.n cfg.endnames
  pub enabled :
      (a b : ℕ) → a < cfg.n → b < cfg.n → is_enabled cfg.n cfg.endnames net cfg.net a b ≡ true
  pub runs :
      (a : ℕ)
      → a < cfg.n
      → get_elem? cfg.kvservers a
        ≡ some (some (start_kv_server rgob kgob cfg.n a (make_persister rgob) cfg.maxraftstate))

module _ {B : Type 0} (rgob : Gob (RaftValue Op) B) (kgob : Gob Value B) where
  IsBegun-IsNet : (cfg : KvConfig B) → IsBegun rgob kgob cfg.n cfg → IsNet cfg.n cfg.endnames
  IsBegun-IsNet cfg b = record { servers = b.slices; names = b.named; distinct = b.distinct }

  connect_all-IsUp :
      (unreliable : Bool) (cfg : KvConfig B)
      → IsBegun rgob kgob cfg.n cfg
      → (up : KvConfig B) × (connect_all cfg ≡ some up)
        × IsUp rgob kgob (record up { net = set_reliable (not unreliable) up.net })
        × (up.n ≡ cfg.n)
  unfolding connect_all
  connect_all-IsUp unreliable cfg b =
      let net = IsBegun-IsNet cfg b in
      let (rn, run, flags) = connect_from_all_lem 0 cfg.n cfg net (omega arith) in
      (
        record cfg { net = rn },
        run,
        record {
          net = net;
          enabled = λ a c below below'.
              let (ns, mine, len) = net.names a below in
              let (x, at) = get_elem?_lt ns c (omega (arith, len, below')) in
              let there : end_name cfg.endnames a c ≡ some x =
                end_name-get_elem? cfg.endnames a c mine ∙ at in
              ground (arith, there, flags a c x below below' there);
          runs = b.runs;
        },
        refl,
      )

  -- Where `make_config` does not fail, on names of each server for each, all servers are started, each on an
  -- empty persister, no two ends have one name, and the end between any two servers is enabled.
  pub make_config-IsUp :
      (unreliable : Bool) (limit : Option ℕ) (servers : List (List (ℕ × ℕ) × ℕ)) (cfg : KvConfig B)
      → AreSized (length servers) servers
      → make_config rgob kgob unreliable limit servers ≡ some cfg
      → IsUp rgob kgob cfg × (cfg.n ≡ length servers)
  unfolding make_config empty_config
  make_config-IsUp unreliable limit servers cfg sized h =
      let empty = empty_config (length servers) limit in
      elim (Option-cases (start_servers rgob kgob 0 servers empty)) [
        | inl e ↦ absurd (ground (arith, e, h))
        | inr (begun, e) ↦
            let (b, n) =
              start_servers-IsBegun rgob kgob 0 servers empty begun
                (empty_config-IsBegun rgob kgob (length servers) limit) (omega arith) sized e in
            let (up, run, is_up, n') =
              connect_all-IsUp unreliable begun
                (subst (λ k. IsBegun rgob kgob k begun) (sym n) b) in
            let same : record up { net = set_reliable (not unreliable) up.net } ≡ cfg =
              ground (arith, e, run, h) in
            (subst (IsUp rgob kgob) same is_up, ap (λ c. c.n) (sym same) ∙ n' ∙ n)
      ]

leader_from-below :
    {B : Type 0} (i l : ℕ) (found : Bool) (kvservers : List (Option (KvServer B)))
    → leader_from i kvservers ≡ some (found, l)
    → (l ≡ 0) ⊎ (l < i + length kvservers)
unfolding leader_from
leader_from-below i l found [] h = inl (ground (arith, h))
leader_from-below i l found (none ∷ kvservers) h = absurd (ground (arith, h))
leader_from-below i l found (some kv ∷ kvservers) h = elim (Bool-cases (get_state kv.rf).1) [
  | inl leads ↦ inr (ground (arith, h, leads))
  | inr follows ↦ elim (leader_from-below (i + 1) l found kvservers (ground (arith, h, follows))) [
    | inl zero_is ↦ inl zero_is
    | inr below ↦ inr (omega (arith, below))
  ]
]

-- In a configuration of an odd number of servers, more than one, each with its ends, where `Leader` does not
-- fail, `make_partition` splits the servers into two parts, the leader in the smaller one, and
-- `partition` of these parts runs without a fault and leaves exactly the ends enabled whose servers are in the same
-- part.
pub make_partition_lem :
    {B : Type 0} (cfg : KvConfig B) (net : IsNet cfg.n cfg.endnames) (found : Bool) (l : ℕ)
    → length cfg.kvservers ≡ cfg.n
    → cfg.n % 2 ≡ 1
    → 1 < cfg.n
    → leader cfg ≡ some (found, l)
    → (p1 p2 : List ℕ) × (make_partition cfg ≡ some (p1, p2))
      × IsSplit cfg.n l p1 p2
      × ((rn : Network) × (partition cfg.endnames p1 p2 cfg.net ≡ some rn)
          × ((a b : ℕ)
              → a < cfg.n
              → b < cfg.n
              → (is_enabled cfg.n cfg.endnames net rn a b ≡ true) ↔ (is_in a p1 ≡ is_in b p1)))
unfolding make_partition leader
make_partition_lem cfg net found l servers odd more leads =
    let below : l < cfg.n = elim (leader_from-below 0 l found cfg.kvservers leads) [
      | inl first ↦ omega (arith, first, more)
      | inr inside ↦ omega (arith, inside, servers)
    ] in
    let ((p1, p2), run, split) = partition_around-IsSplit cfg.n l odd more below in
    let apart : (c : ℕ) → is_in c p1 ≡ true → is_in c p2 ≡ false = λ c one.
      ground
        (arith, one, split.sides c (lt_of_is_in cfg.n cfg.endnames net c p1 split.below1 one)) in
    let (rn, runs, flags) =
      partition_lem cfg.n cfg.endnames net p1 p2 cfg.net apart (omega (arith, split.size1, more))
        (omega (arith, split.size2)) split.below1 split.below2 in
    (
      p1,
      p2,
      ground (arith, leads, run),
      split,
      (rn, runs, λ a b lt lt'. ground (arith, flags a b, split.sides a lt, split.sides b lt')),
    )

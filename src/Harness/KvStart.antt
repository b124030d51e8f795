-- ===== src/Harness/KvStart.antt =====
-- What `StartServer` and `make_config` of kvraft/config.go give: servers with ends of their own, all
-- connected.
use golang_deep_distributed.Prelude.{
  ℕ_discrete, ℕ, zero, suc, ◌+◌, ◌≤◌, ◌<◌, max, ◌≡◌, refl, sym, ap, ◌∙◌, subst, inl, inr, Option,
  none, some, List, [], ◌∷◌, map, arith, ◌==◌, if◌then◌else◌, Bool-cases, Option-cases, length,
  get_elem?, set, replicate, length-set, length-replicate, get_elem?-set_self, get_elem?-set_ne,
}
use golang_deep_distributed.Prelude.Dict.{lookup, nat_eq}
use golang_deep_distributed.Persister.{Gob, Persister, make_persister}
use golang_deep_distributed.Labrpc.Network.{Network, add_server}
use golang_deep_distributed.Raft.State.{Value as RaftValue}
use golang_deep_distributed.Kv.State.{Op, Value}
use golang_deep_distributed.Kv.Apply.{start_kv_server}
use golang_deep_distributed.Harness.Servers.{make_ends}
use golang_deep_distributed.Harness.Ends.{end_name}
use golang_deep_distributed.Harness.Touched.{AreDistinct}
use golang_deep_distributed.Harness.Starting.{
  Makes, first, make_ends-Makes, distinct-set, made-set, AreMade,
}
use golang_deep_distributed.Harness.Made.{length-first}
use golang_deep_distributed.Harness.MakeConfig.{AreSized, end_name-nil}
use golang_deep_distributed.Harness.KvConfig.{
  KvConfig, saved_at, start_server, start_servers, empty_config,
}

get_elem?-replicate : {A : Type 0} (n a : ℕ) (v : A) → a < n → get_elem? (replicate n v) a ≡ some v
get_elem?-replicate zero a v lt = absurd (omega (arith, lt))
get_elem?-replicate (suc n) zero v lt = refl
get_elem?-replicate (suc n) (suc a) v lt = get_elem?-replicate n a v (omega (arith, lt))

pub get_elem?-set_at :
    {A : Type 0} (xs : List A) (i a : ℕ) (v : A)
    → i < length xs
    → get_elem? (set xs i v) a ≡ (if i == a then some v else get_elem? xs a)
get_elem?-set_at xs i a v lt = elim (ℕ_discrete i a) [
  | yes e ↦
      subst (λ u. get_elem? (set xs i v) u ≡ (if i == u then some v else get_elem? xs u)) e
        (get_elem?-set_self xs i v lt ∙ ground arith)
  | no ne ↦ get_elem?-set_ne xs i a v ne ∙ ground (arith, ne)
]

module _ {B : Type 0} (rgob : Gob (RaftValue Op) B) (kgob : Gob Value B) where
  -- The servers before number `i` are started, each on an empty persister and with a name for each server, and the
  -- others are not; no name is used twice, and every name in use is the name of an end.
  pub record IsBegun (i : ℕ) (cfg : KvConfig B) : Type 0 where
    pub slices : length cfg.endnames ≡ cfg.n
    pub servers : length cfg.kvservers ≡ cfg.n
    pub saves : length cfg.saved ≡ cfg.n
    pub named :
        (a : ℕ)
        → a < i
        → (ns : List ℕ) × (get_elem? cfg.endnames a ≡ some (some ns)) × (length ns ≡ cfg.n)
    pub runs :
        (a : ℕ)
        → a < i
        → get_elem? cfg.kvservers a
          ≡ some (some (start_kv_server rgob kgob cfg.n a (make_persister rgob) cfg.maxraftstate))
    pub absent :
        (a : ℕ)
        → i ≤ a
        → a < cfg.n
        → (get_elem? cfg.kvservers a ≡ some none) × (get_elem? cfg.saved a ≡ some none)
    pub distinct : AreDistinct cfg.endnames
    pub made : AreMade cfg.endnames cfg.net

  -- What `StartServer` does when it does not fail.
  record Starts (i : ℕ) (names : List (ℕ × ℕ)) (cfg cfg' : KvConfig B) : Type 0 where
    net : Network
    ends : make_ends 0 names cfg.net ≡ some net
    ends_kept : cfg'.net.ends ≡ net.ends
    same : (cfg'.n ≡ cfg.n) × (cfg'.maxraftstate ≡ cfg.maxraftstate)
    endnames : cfg'.endnames ≡ set cfg.endnames i (some (map first names))
    saved : (p : Option (Persister B)) × (cfg'.saved ≡ set cfg.saved i p)
    kvservers :
        cfg'.kvservers
        ≡ set cfg.kvservers i
            (some (start_kv_server rgob kgob cfg.n i (make_persister rgob) cfg.maxraftstate))

  start_server-Starts :
      (i : ℕ) (names : List (ℕ × ℕ)) (srv : ℕ) (cfg cfg' : KvConfig B)
      → saved_at cfg i ≡ some none
      → start_server rgob kgob i names srv cfg ≡ some cfg'
      → Starts i names cfg cfg'
  unfolding start_server add_server
  start_server-Starts i names srv cfg cfg' blank h =
      elim (Option-cases (make_ends 0 names cfg.net)) [
        | inl e ↦ absurd (ground (arith, e, h))
        | inr (net, e) ↦ elim (Option-cases (get_elem? cfg.endnames i)) [
          | inl f ↦ absurd (ground (arith, f, h))
          | inr (old, f) ↦ record {
            net = net;
            ends = e;
            ends_kept = ground (arith, e, f, blank, h);
            same = ground (arith, e, f, blank, h);
            endnames = ground (arith, e, f, blank, h);
            saved = (some (make_persister rgob), ground (arith, e, f, blank, h));
            kvservers = ground (arith, e, f, blank, h);
          }
        ]
      ]

  start_server-IsBegun :
      (i : ℕ) (names : List (ℕ × ℕ)) (srv : ℕ) (cfg cfg' : KvConfig B)
      → IsBegun i cfg
      → i < cfg.n
      → length names ≡ cfg.n
      → start_server rgob kgob i names srv cfg ≡ some cfg'
      → IsBegun (i + 1) cfg' × (cfg'.n ≡ cfg.n)
  start_server-IsBegun i names srv cfg cfg' b lt size h =
      let (no_server, no_save) = b.absent i (omega arith) lt in
      let blank : saved_at cfg i ≡ some none =
        unfold saved_at in ground (arith, no_server, no_save) in
      let s = start_server-Starts i names srv cfg cfg' blank h in
      let m : Makes names cfg.net s.net = make_ends-Makes 0 names cfg.net s.net s.ends in
      let inside : i < length cfg.endnames = omega (arith, lt, b.slices) in
      let new = some (map first names) in
      let kv = start_kv_server rgob kgob cfg.n i (make_persister rgob) cfg.maxraftstate in
      let at_names : (a : ℕ)
          → get_elem? cfg'.endnames a ≡ (if i == a then some new else get_elem? cfg.endnames a) =
        λ a. ap (λ xs. get_elem? xs a) s.endnames ∙ get_elem?-set_at cfg.endnames i a new inside in
      let at_server : (a : ℕ)
          → get_elem? cfg'.kvservers a
            ≡ (if i == a then some (some kv) else get_elem? cfg.kvservers a) =
        λ a.
          ap (λ xs. get_elem? xs a) s.kvservers
          ∙ get_elem?-set_at cfg.kvservers i a (some kv) (omega (arith, lt, b.servers)) in
      let at_saved : (a : ℕ)
          → get_elem? cfg'.saved a ≡ (if i == a then some s.saved.0 else get_elem? cfg.saved a) =
        λ a.
          ap (λ xs. get_elem? xs a) s.saved.1
          ∙ get_elem?-set_at cfg.saved i a s.saved.0 (omega (arith, lt, b.saves)) in
      (
        record {
          slices = ap length s.endnames ∙ length-set cfg.endnames i new ∙ b.slices ∙ sym s.same.0;
          servers =
              ap length s.kvservers
              ∙ length-set cfg.kvservers i (some kv)
              ∙ b.servers
              ∙ sym s.same.0;
          saves = ap length s.saved.1 ∙ length-set cfg.saved i s.saved.0 ∙ b.saves ∙ sym s.same.0;
          named = λ a before. elim (Bool-cases (i == a)) [
            | inl mine ↦ (
              map first names,
              ground (arith, at_names a, mine),
              length-first names ∙ size ∙ sym s.same.0,
            )
            | inr other ↦
                let (ns, at, len) = b.named a (ground (arith, before, other)) in
                (ns, ground (arith, at_names a, other, at), len ∙ sym s.same.0)
          ];
          runs = λ a before. elim (ℕ_discrete i a) [
            | yes mine ↦
                subst
                  (λ u.
                    get_elem? cfg'.kvservers u
                    ≡ some (
                        some (
                          start_kv_server rgob kgob cfg'.n u (make_persister rgob)
                            cfg'.maxraftstate)))
                  mine
                  (at_server i
                    ∙ ground arith
                    ∙ ap
                        (λ n. some (
                          some
                            (start_kv_server rgob kgob n i (make_persister rgob) cfg.maxraftstate)))
                        (sym s.same.0)
                    ∙ ap
                        (λ m.
                          some (some (start_kv_server rgob kgob cfg'.n i (make_persister rgob) m)))
                        (sym s.same.1))
            | no other ↦
                at_server a
                ∙ ground (arith, other)
                ∙ b.runs a (omega (arith, before, other))
                ∙ ap
                    (λ n.
                      some (
                        some
                          (start_kv_server rgob kgob n a (make_persister rgob) cfg.maxraftstate)))
                    (sym s.same.0)
                ∙ ap (λ m. some (some (start_kv_server rgob kgob cfg'.n a (make_persister rgob) m)))
                    (sym s.same.1)
          ];
          absent = λ a after below.
              ground (arith, after, below, s.same, at_server a, at_saved a, b.absent a);
          distinct =
              subst AreDistinct (sym s.endnames)
                (distinct-set cfg.endnames i names cfg.net s.net inside b.distinct b.made m);
          made = λ a c x h missing.
              made-set cfg.endnames i names cfg.net s.net inside b.made m a c x
                (subst (λ es. end_name es a c ≡ some x) s.endnames h)
                (sym (ap (lookup x) s.ends_kept) ∙ missing);
        },
        s.same.0,
      )

  pub start_servers-IsBegun :
      (i : ℕ) (servers : List (List (ℕ × ℕ) × ℕ)) (cfg cfg' : KvConfig B)
      → IsBegun i cfg
      → i + length servers ≡ cfg.n
      → AreSized cfg.n servers
      → start_servers rgob kgob i servers cfg ≡ some cfg'
      → IsBegun cfg.n cfg' × (cfg'.n ≡ cfg.n)
  unfolding start_servers
  start_servers-IsBegun i [] cfg cfg' b len sized h =
      let same : cfg ≡ cfg' = ground (arith, h) in
      let all : i ≡ cfg.n = ground (arith, len) in
      (subst (IsBegun cfg.n) same (subst (λ k. IsBegun k cfg) all b), ap (λ c. c.n) (sym same))
  start_servers-IsBegun i ((names, srv) ∷ servers) cfg cfg' b len sized h =
      elim (Option-cases (start_server rgob kgob i names srv cfg)) [
        | inl e ↦ absurd (ground (arith, e, h))
        | inr (mid, e) ↦
            let (b1, n1) =
              start_server-IsBegun i names srv cfg mid b (omega (arith, len)) sized.0 e in
            let (b2, n2) =
              start_servers-IsBegun (i + 1) servers mid cfg' b1 (omega (arith, len, n1))
                (subst (λ n. AreSized n servers) (sym n1) sized.1) (ground (arith, e, h)) in
            (subst (λ n. IsBegun n cfg') n1 b2, n2 ∙ n1)
      ]

  pub empty_config-IsBegun : (n : ℕ) (max : Option ℕ) → IsBegun 0 (empty_config n max)
  unfolding empty_config
  empty_config-IsBegun n max = record {
    slices = length-replicate n none;
    servers = length-replicate n none;
    saves = length-replicate n none;
    named = λ a before. absurd (omega (arith, before));
    runs = λ a before. absurd (omega (arith, before));
    absent =
        λ a after below. (get_elem?-replicate n a none below, get_elem?-replicate n a none below);
    distinct = λ a b c d x h h'. absurd (ground (arith, h, end_name-nil n a b));
    made = λ a b x h. absurd (ground (arith, h, end_name-nil n a b));
  }

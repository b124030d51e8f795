-- ===== src/Harness/MakeConfig.antt =====
-- What `make_config` of raft/config.go gives: a wired harness with all servers connected.
use golang_deep_distributed.Prelude.{
  ℕ_discrete, ℕ, zero, suc, ◌+◌, ◌<◌, ◌≡◌, refl, sym, ap, ◌∙◌, subst, ◌≢◌, inl, inr, Bool, true,
  false, Option, none, some, List, [], ◌∷◌, arith, Option-cases, length, get_elem?, set, replicate,
  length-replicate,
}
use golang_deep_distributed.Prelude.Dict.{Dict, nat_eq}
use golang_deep_distributed.Persister.{Gob}
use golang_deep_distributed.Raft.State.{Value}
use golang_deep_distributed.Harness.Config.{Config}
use golang_deep_distributed.Harness.Servers.{
  start1, start_all, connect_all, empty_config, make_config,
}
use golang_deep_distributed.Harness.Ends.{is_on, end_name}
use golang_deep_distributed.Harness.Touched.{is_on-set}
use golang_deep_distributed.Harness.Wiring.{IsWired, connect-IsWired}
use golang_deep_distributed.Harness.Partition.{IsStarted}
use golang_deep_distributed.Harness.Made.{IsReady, IsNamed, start1-Starts, IsReady-Starts}

-- Each server gets a name for each server.
abbrev pub AreSized : ℕ → List (List (ℕ × ℕ) × ℕ) → Type 0
AreSized n [] = Unit
AreSized n ((names, srv) ∷ servers) = (length names ≡ n) × AreSized n servers

-- Before a server is started its log is made empty, which changes no end.
IsReady-logs :
    {C B : Type 0} (cfg : Config C B) (logs : List (Dict ℕ (Option C)))
    → IsReady cfg
    → IsReady (record cfg { logs = logs })
IsReady-logs cfg logs r = record {
  wired = record {
    servers = r.wired.servers;
    slices = r.wired.slices;
    sizes = r.wired.sizes;
    named = r.wired.named;
    distinct = r.wired.distinct;
    wired = r.wired.wired;
  };
  made = r.made;
}

pub end_name-nil : (n a b : ℕ) → end_name (replicate n none) a b ≡ none
end_name-nil zero a b = refl
end_name-nil (suc n) zero b = refl
end_name-nil (suc n) (suc a) b = end_name-nil n a b

is_on-nil : (n a : ℕ) → is_on (replicate n false) a ≡ false
is_on-nil zero a = refl
is_on-nil (suc n) zero = refl
is_on-nil (suc n) (suc a) = is_on-nil n a

get_elem?-nil : {A : Type 0} (n a : ℕ) (v : A) → get_elem? (replicate n none) a ≢ some (some v)
get_elem?-nil zero a v at = ground (arith, at)
get_elem?-nil (suc n) zero v at = ground (arith, at)
get_elem?-nil (suc n) (suc a) v at = get_elem?-nil n a v at

module _ {C B : Type 0} where
  IsReady-empty : (unreliable : Bool) (n : ℕ) → IsReady {C = C} {B = B} (empty_config unreliable n)
  unfolding empty_config
  IsReady-empty unreliable n = record {
    wired = record {
      servers = length-replicate n false;
      slices = length-replicate n none;
      sizes = λ a names at. absurd (get_elem?-nil n a names at);
      named = λ a up. absurd (ground (arith, up, is_on-nil n a));
      distinct = λ a b c d x h h'. absurd (ground (arith, h, end_name-nil n a b));
      wired = λ a b x h. absurd (ground (arith, h, end_name-nil n a b));
    };
    made = λ a b x h. absurd (ground (arith, h, end_name-nil n a b));
  }

  connect_all-IsWired :
      (n i : ℕ) (cfg : Config C B)
      → IsWired cfg
      → IsStarted cfg
      → i + n ≡ cfg.n
      → ((a : ℕ) → a < i → is_on cfg.connected a ≡ true)
      → (cfg' : Config C B) × (connect_all i n cfg ≡ some cfg')
        × IsWired cfg'
        × IsStarted cfg'
        × (cfg'.n ≡ cfg.n)
        × ((a : ℕ) → a < cfg.n → is_on cfg'.connected a ≡ true)
  unfolding connect_all
  connect_all-IsWired zero i cfg w started len on =
      (cfg, refl, w, started, refl, λ a lt. on a (ground (arith, lt, len)))
  connect_all-IsWired (suc n) i cfg w started len on =
      let lt : i < cfg.n = omega (arith, len) in
      let (names, mine) = started i lt in
      let (next, run, w1, keep, same) = connect-IsWired cfg i names w lt mine in
      let size : next.n ≡ cfg.n = ap (λ c. c.n) keep in
      let ends : next.endnames ≡ cfg.endnames = ap (λ c. c.endnames) keep in
      let up : next.connected ≡ set cfg.connected i true = ap (λ c. c.connected) keep in
      let (cfg', runs, w2, started', n2, all) =
        connect_all-IsWired n (i + 1) next w1
          (λ a lt'.
            let (ns, at) = started a (ground (arith, lt', size)) in
            (ns, ap (λ es. get_elem? es a) ends ∙ at))
          (omega (arith, len, size))
          (λ a lt'.
            ap (λ c. is_on c a) up
            ∙ is_on-set cfg.connected i a true (ground (arith, lt, w.servers))
            ∙ ground (arith, lt', on a)) in
      (
        cfg',
        ground (arith, run, runs),
        w2,
        started',
        n2 ∙ size,
        λ a lt'. all a (ground (arith, lt', size)),
      )

module _ {C B : Type 0} (gob : Gob (Value C) B) where
  start_all-IsReady :
      (i : ℕ) (servers : List (List (ℕ × ℕ) × ℕ)) (cfg cfg' : Config C B)
      → start_all gob i servers cfg ≡ some cfg'
      → IsReady cfg
      → AreSized cfg.n servers
      → i + length servers ≡ cfg.n
      → ((a : ℕ) → a < i → IsNamed cfg a)
      → IsReady cfg' × (cfg'.n ≡ cfg.n) × ((a : ℕ) → a < cfg.n → IsNamed cfg' a)
  unfolding start_all
  start_all-IsReady i [] cfg cfg' h r sized len named =
      let same : cfg ≡ cfg' = ground (arith, h) in
      subst (λ c. IsReady c × (c.n ≡ cfg.n) × ((a : ℕ) → a < cfg.n → IsNamed c a)) same
        (r, refl, λ a lt. named a (ground (arith, lt, len)))
  start_all-IsReady i ((names, srv) ∷ servers) cfg cfg' h r sized len named =
      let cfg0 = record cfg { logs = set cfg.logs i [] } in
      elim (Option-cases (start1 gob i names srv cfg0)) [
        | inl e ↦ absurd (ground (arith, e, h))
        | inr (next, e) ↦
            let (r1, n1, here, keeps) =
              IsReady-Starts gob i names cfg0 next (start1-Starts gob i names srv cfg0 next e)
                (IsReady-logs cfg _ r) (omega (arith, len)) sized.0 in
            let (r2, n2, all) =
              start_all-IsReady (i + 1) servers next cfg' (ground (arith, e, h)) r1
                (subst (λ n. AreSized n servers) (sym n1) sized.1) (omega (arith, len, n1))
                (λ a lt. elim (ℕ_discrete i a) [
                  | yes same ↦ subst (IsNamed next) same here
                  | no ne ↦ keeps a (named a (ground (arith, lt, ne)))
                ]) in
            (r2, n2 ∙ n1, λ a lt. all a (ground (arith, lt, n1)))
      ]

  -- Where `make_config` does not fail, on names for each server, every server has its names and is
  -- connected, no two ends have the same name, and every end between servers is enabled.
  pub make_config-IsWired :
      (unreliable : Bool) (servers : List (List (ℕ × ℕ) × ℕ)) (cfg : Config C B)
      → AreSized (length servers) servers
      → make_config gob unreliable servers ≡ some cfg
      → IsWired cfg
        × IsStarted cfg
        × (cfg.n ≡ length servers)
        × ((a : ℕ) → a < length servers → is_on cfg.connected a ≡ true)
  unfolding make_config
  make_config-IsWired unreliable servers cfg sized h =
      let n = length servers in
      let empty : Config C B = empty_config unreliable n in
      let size : empty.n ≡ n = unfold empty_config in refl in
      elim (Option-cases (start_all gob 0 servers empty)) [
        | inl e ↦ absurd (ground (arith, e, h))
        | inr (started, e) ↦
            let (r, n1, named) =
              start_all-IsReady 0 servers empty started e (IsReady-empty unreliable n)
                (subst (λ k. AreSized k servers) (sym size) sized) (omega (arith, size))
                (λ a lt. absurd (omega (arith, lt))) in
            let (cfg', run, w, all_named, n2, on) =
              connect_all-IsWired n 0 started r.wired (λ i lt. named i (ground (arith, lt, n1)))
                (omega (arith, n1, size)) (λ a lt. absurd (omega (arith, lt))) in
            let same : cfg' ≡ cfg = ground (arith, e, run, h) in
            subst
              (λ c.
                IsWired c
                × IsStarted c
                × (c.n ≡ n)
                × ((a : ℕ) → a < n → is_on c.connected a ≡ true))
              same (w, all_named, n2 ∙ n1 ∙ size, λ a lt. on a (ground (arith, lt, n1, size)))
      ]

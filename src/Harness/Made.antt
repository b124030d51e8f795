-- ===== src/Harness/Made.antt =====
-- What `start1` and `make_config` of raft/config.go give: a wired harness, and a peer that goes on
-- where the one before it stopped.
use golang_deep_distributed.Prelude.{
  ℕ_discrete, ℕ, suc, ◌<◌, ◌≡◌, refl, sym, ap, ◌∙◌, subst, ◌≢◌, inl, inr, false, ◌&&◌, some, List,
  [], ◌∷◌, map, arith, Option-cases, ◌>>=◌, length, get_elem?, set, length-set, lt_of_get_elem?,
  get_elem?-set_self, get_elem?-set_ne,
}
use golang_deep_distributed.Prelude.Dict.{lookup, nat_eq}
use golang_deep_distributed.Persister.{Gob}
use golang_deep_distributed.Labrpc.Network.{Network, flag_at, delete_server}
use golang_deep_distributed.Raft.State.{Value}
use golang_deep_distributed.Harness.Config.{Config}
use golang_deep_distributed.Harness.Servers.{
  make_ends, start1, disconnect, saved_by, kill_peer, raft_state_only,
}
use golang_deep_distributed.Harness.Ends.{is_on, end_name, IsSame}
use golang_deep_distributed.Harness.Touched.{is_on-set, AreDistinct}
use golang_deep_distributed.Harness.Wiring.{IsWired, disconnect-IsWired}
use golang_deep_distributed.Harness.Starting.{
  Makes, first, make_ends-Makes, distinct-set, made-set, wired-set, AreMade,
}

pub length-first : (names : List (ℕ × ℕ)) → length (map first names) ≡ length names
length-first [] = refl
length-first (name ∷ names) = ap suc (length-first names)

-- The harness is wired, and every name in use is the name of an end.
pub record IsReady {C B : Type 0} (cfg : Config C B) : Type 0 where
  pub wired : IsWired cfg
  pub made : AreMade cfg.endnames cfg.net

abbrev pub IsNamed : {C B : Type 0} → Config C B → ℕ → Type 0
IsNamed cfg a = (names : List ℕ) × (get_elem? cfg.endnames a ≡ some (some names))

module _ {C B : Type 0} (gob : Gob (Value C) B) where
  -- What `start1` did when it did not fail.
  pub record Starts (i : ℕ) (names : List (ℕ × ℕ)) (cfg cfg' : Config C B) : Type 0 where
    off : Config C B
    stopped : disconnect i cfg ≡ some off
    net : Network
    ends : make_ends 0 names (delete_server i off.net) ≡ some net
    n : cfg'.n ≡ off.n
    connected : cfg'.connected ≡ off.connected
    endnames : cfg'.endnames ≡ set off.endnames i (some (map first names))
    enabled : cfg'.net.enabled ≡ net.enabled
    made : cfg'.net.ends ≡ net.ends

  pub start1-Starts :
      (i : ℕ) (names : List (ℕ × ℕ)) (srv : ℕ) (cfg cfg' : Config C B)
      → start1 gob i names srv cfg ≡ some cfg'
      → Starts i names cfg cfg'
  unfolding start1
  start1-Starts i names srv cfg cfg' h = elim (Option-cases (disconnect i cfg)) [
    | inl e ↦ absurd (ground (arith, e, h))
    | inr (off, e) ↦ elim (Option-cases (get_elem? off.rafts i)) [
      | inl f ↦ absurd (ground (arith, e, f, h))
      | inr (r, f) ↦ elim (Option-cases (get_elem? off.saved i)) [
        | inl g ↦ absurd (ground (arith, e, f, g, h))
        | inr (ps, g) ↦ elim (Option-cases (kill_peer r)) [
          | inl k ↦ absurd (ground (arith, e, f, g, k, h))
          | inr (u, k) ↦ elim (Option-cases (make_ends 0 names (delete_server i off.net))) [
            | inl m ↦ absurd (ground (arith, e, f, g, k, m, h))
            | inr (net, m) ↦
                let kept = saved_by r ps >>= λ old. some (raft_state_only gob old) in
                let self : get_elem? (set off.saved i kept) i ≡ some kept =
                  get_elem?-set_self off.saved i kept (lt_of_get_elem? off.saved i g) in
                record {
                  off = off;
                  stopped = e;
                  net = net;
                  ends = m;
                  n = ground (arith, e, f, g, k, m, self, h);
                  connected = ground (arith, e, f, g, k, m, self, h);
                  endnames = ground (arith, e, f, g, k, m, self, h);
                  enabled = ground (arith, e, f, g, k, m, self, h);
                  made = ground (arith, e, f, g, k, m, self, h);
                }
          ]
        ]
      ]
    ]
  ]

  -- A server of a ready harness is off the network.
  record IsStopped (i : ℕ) (cfg o : Config C B) : Type 0 where
    wired : IsWired o
    n : o.n ≡ cfg.n
    endnames : o.endnames ≡ cfg.endnames
    inside : i < length o.endnames
    off : is_on o.connected i ≡ false
    made : AreMade o.endnames (delete_server i o.net)

  disconnect-IsStopped :
      (i : ℕ) (cfg o : Config C B)
      → disconnect i cfg ≡ some o
      → IsReady cfg
      → i < cfg.n
      → IsStopped i cfg o
  unfolding delete_server
  disconnect-IsStopped i cfg o stopped ready lt =
      let (off, run, off_w, off_keep, off_same) = disconnect-IsWired cfg i ready.wired lt in
      let is_off : off ≡ o = ground (arith, run, stopped) in
      let w : IsWired o = subst IsWired is_off off_w in
      let keep : o ≡ record cfg { connected = set cfg.connected i false; net = o.net } =
        subst (λ c. c ≡ record cfg { connected = set cfg.connected i false; net = c.net }) is_off
          off_keep in
      let same : IsSame cfg.net o.net = subst (λ c. IsSame cfg.net c.net) is_off off_same in
      let size : o.n ≡ cfg.n = ap (λ c. c.n) keep in
      record {
        wired = w;
        n = size;
        endnames = ap (λ c. c.endnames) keep;
        inside = ground (arith, lt, w.slices, size);
        off =
            ap (λ c. is_on c.connected i) keep
            ∙ is_on-set cfg.connected i i false (ground (arith, lt, ready.wired.servers))
            ∙ ground arith;
        made = λ a b x h missing.
            ready.made a b x (subst (λ es. end_name es a b ≡ some x) (ap (λ c. c.endnames) keep) h)
              (sym (ap (λ r. lookup x r.ends) same) ∙ missing);
      }

  pub IsReady-Starts :
      (i : ℕ) (names : List (ℕ × ℕ)) (cfg cfg' : Config C B)
      → Starts i names cfg cfg'
      → IsReady cfg
      → i < cfg.n
      → length names ≡ cfg.n
      → IsReady cfg'
        × (cfg'.n ≡ cfg.n)
        × IsNamed cfg' i
        × ((a : ℕ) → IsNamed cfg a → IsNamed cfg' a)
  unfolding delete_server
  IsReady-Starts i names cfg cfg' s ready lt size =
      let o = s.off in
      let st = disconnect-IsStopped i cfg o s.stopped ready lt in
      let w = st.wired in
      let rn = delete_server i o.net in
      let m : Makes names rn s.net = make_ends-Makes 0 names rn s.net s.ends in
      let new = some (map first names) in
      let at_i : get_elem? cfg'.endnames i ≡ some new =
        ap (λ es. get_elem? es i) s.endnames ∙ get_elem?-set_self o.endnames i new st.inside in
      let at_ne : (a : ℕ) → i ≢ a → get_elem? cfg'.endnames a ≡ get_elem? o.endnames a =
        λ a ne. ap (λ es. get_elem? es a) s.endnames ∙ get_elem?-set_ne o.endnames i a new ne in
      let keeps : (a : ℕ) → IsNamed o a → IsNamed cfg' a = λ a named. elim (ℕ_discrete i a) [
        | yes e ↦ (map first names, subst (λ k. get_elem? cfg'.endnames k ≡ some new) e at_i)
        | no ne ↦ (named.0, at_ne a ne ∙ named.1)
      ] in
      (
        record {
          wired = record {
            servers = ap length s.connected ∙ w.servers ∙ sym s.n;
            slices = ap length s.endnames ∙ length-set o.endnames i new ∙ w.slices ∙ sym s.n;
            sizes = λ a ns at. elim (ℕ_discrete i a) [
              | yes e ↦ ground (
                arith,
                subst (λ k. get_elem? cfg'.endnames k ≡ some (some ns)) (sym e) at,
                at_i,
                length-first names,
                size,
                s.n,
                st.n,
              )
              | no ne ↦ w.sizes a ns (sym (at_ne a ne) ∙ at) ∙ sym s.n
            ];
            named = λ a up. keeps a (w.named a (sym (ap (λ c. is_on c a) s.connected) ∙ up));
            distinct =
                subst AreDistinct (sym s.endnames)
                  (distinct-set o.endnames i names rn s.net st.inside w.distinct st.made m);
            wired = λ a b x h.
                ap (flag_at x) s.enabled
                ∙ wired-set o.endnames o.connected i names rn s.net st.inside st.off st.made m
                    w.wired a b x (subst (λ es. end_name es a b ≡ some x) s.endnames h)
                ∙ ap (λ c. is_on c a && is_on c b) (sym s.connected);
          };
          made = λ a b x h missing.
              made-set o.endnames i names rn s.net st.inside st.made m a b x
                (subst (λ es. end_name es a b ≡ some x) s.endnames h)
                (sym (ap (lookup x) s.made) ∙ missing);
        },
        s.n ∙ st.n,
        (map first names, at_i),
        λ a named. keeps a (named.0, ap (λ es. get_elem? es a) st.endnames ∙ named.1),
      )

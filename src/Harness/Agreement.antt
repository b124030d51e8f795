-- ===== src/Harness/Agreement.antt =====
-- What the readers of raft/config.go accept: logs that agree, without gaps.
use golang_deep_distributed.Prelude.{
  ℕ_discrete, ℕ, zero, suc, ◌-◌, ◌≤◌, ◌<◌, max, ◌≡◌, refl, sym, ap, ◌∙◌, subst, ◌≢◌, inl, inr, true,
  false, not, ◌&&◌, ◌||◌, Option, none, some, List, [], ◌∷◌, arith, ltb, ◌==◌, if◌then◌else◌,
  Bool-cases, Option-cases, ◌>>=◌, length, get_elem?, set, replicate, length-set, length-replicate,
  lt_of_get_elem?, get_elem?-set_self, get_elem?-set_ne,
}
use golang_deep_distributed.Prelude.Dict.{
  Dict, lookup, insert, nat_eq, Eq, option_beq_iff, lookup-insert,
}
use golang_deep_distributed.Raft.State.{ApplyMsg}
use golang_deep_distributed.Harness.Config.{Config, is_there, is_taken, read_msg, read_all}

-- What a server has under an index.
abbrev pub holds : {C : Type 0} → List (Dict ℕ (Option C)) → ℕ → ℕ → Option (Option C)
holds logs i k = get_elem? logs i >>= lookup k

-- Two servers never have different values under an index, each has all indexes from 1 up to its last
-- one, and none is above the maximum.
pub record Agrees {C : Type 0} (logs : List (Dict ℕ (Option C))) (max_index : ℕ) : Type 0 where
  pub same :
      (i j k : ℕ) (v w : Option C) → holds logs i k ≡ some v → holds logs j k ≡ some w → v ≡ w
  pub no_gap : (i k : ℕ) → 1 < k → holds logs i k ≢ none → holds logs i (k - 1) ≢ none
  pub below : (i k : ℕ) → holds logs i k ≢ none → k ≤ max_index

module _ {C : Type 0} (eq : Eq C) where
  is_taken-false :
      (k : ℕ) (v : Option C) (logs : List (Dict ℕ (Option C)))
      → is_taken eq k v logs ≡ false
      → (j : ℕ) (w : Option C) → holds logs j k ≡ some w
      → w ≡ v
  unfolding is_taken
  is_taken-false k v [] free j w h = absurd (ground (arith, h))
  is_taken-false k v (log ∷ logs) free zero w h = ground (arith, option_beq_iff eq w v)
  is_taken-false k v (log ∷ logs) free (suc j) w h =
      is_taken-false k v logs (ground (arith, free)) j w h

module _ {C : Type 0} where
  holds-set :
      (logs : List (Dict ℕ (Option C))) (i : ℕ) (log : Dict ℕ (Option C)) (k : ℕ) (v : Option C)
      → get_elem? logs i ≡ some log
      → (j m : ℕ)
      → holds (set logs i (insert k v log)) j m
        ≡ (if i == j && k == m then some v else holds logs j m)
  holds-set logs i log k v at j m = elim (ℕ_discrete i j) [
    | yes e ↦ ground (
      arith,
      at,
      e,
      get_elem?-set_self logs i (insert k v log) (lt_of_get_elem? logs i at),
      lookup-insert k m v log,
    )
    | no ne ↦ ground (arith, ne, get_elem?-set_ne logs i j (insert k v log) ne)
  ]

  Agrees-set :
      (i k : ℕ) (v : Option C) (logs : List (Dict ℕ (Option C))) (max_index : ℕ)
      (log : Dict ℕ (Option C))
      → get_elem? logs i ≡ some log
      → ((j : ℕ) (w : Option C) → holds logs j k ≡ some w → w ≡ v)
      → (1 < k → holds logs i (k - 1) ≢ none)
      → Agrees logs max_index
      → Agrees (set logs i (insert k v log)) (max max_index k)
  Agrees-set i k v logs max_index log at free prev a =
      let look = holds-set logs i log k v at in
      record {
        same = λ j j' m u w h h'.
            ground (arith, look j m, look j' m, a.same j j' m u w, free j u, free j' w);
        no_gap = λ j m lt h e. ground (arith, look j m, look j (m - 1), a.no_gap j m lt, prev);
        below = λ j m h. ground (arith, look j m, a.below j m);
      }

  holds-empty : (n i k : ℕ) → holds (replicate {A = Dict ℕ (Option C)} n []) i k ≡ none
  holds-empty zero i k = refl
  holds-empty (suc n) zero k = unfold lookup in refl
  holds-empty (suc n) (suc i) k = holds-empty n i k

module _ {C B : Type 0} where
  -- The logs agree, and no reader has left an error.
  pub record IsSound (cfg : Config C B) : Type 0 where
    pub agrees : Agrees cfg.logs cfg.max_index
    pub quiet : cfg.apply_err ≡ replicate (length cfg.logs) false

  -- Before any message.
  pub record IsFresh (cfg : Config C B) : Type 0 where
    pub logs : cfg.logs ≡ replicate cfg.n []
    pub apply_err : cfg.apply_err ≡ replicate cfg.n false

module _ {C B : Type 0} (eq : Eq C) where
  -- A message that adds an entry: what a reader found, and the configuration that it leaves.
  record Reads (i : ℕ) (m : ApplyMsg C B) (cfg cfg' : Config C B) : Type 0 where
    log : Dict ℕ (Option C)
    at : get_elem? cfg.logs i ≡ some log
    free : is_taken eq m.command_index m.command cfg.logs ≡ false
    prev : 1 < m.command_index → holds cfg.logs i (m.command_index - 1) ≢ none
    logs' : cfg'.logs ≡ set cfg.logs i (insert m.command_index m.command log)
    max' : cfg'.max_index ≡ max cfg.max_index m.command_index

  read_msg-Reads :
      (i : ℕ) (m : ApplyMsg C B) (cfg cfg' : Config C B)
      → m.command_valid ≡ true
      → read_msg eq i m cfg ≡ some cfg'
      → Reads i m cfg cfg'
  unfolding read_msg
  read_msg-Reads i m cfg cfg' valid h = elim (Option-cases (get_elem? cfg.logs i)) [
    | inl e ↦ absurd (ground (arith, valid, e))
    | inr (log, e) ↦
        let gap = ltb 1 m.command_index && not (is_there (lookup (m.command_index - 1) log)) in
        elim (Bool-cases (is_taken eq m.command_index m.command cfg.logs || gap)) [
          | inl bad ↦ absurd (ground (arith, valid, e, bad))
          | inr good ↦ record {
            log = log;
            at = e;
            free = ground arith;
            prev = λ lt none_there. absurd (ground (arith, good, lt, e, none_there));
            logs' = ground (arith, valid, e, good);
            max' = ground (arith, valid, e, good);
          }
        ]
  ]

  read_msg-Agrees :
      (i : ℕ) (m : ApplyMsg C B) (cfg cfg' : Config C B)
      → read_msg eq i m cfg ≡ some cfg'
      → Agrees cfg.logs cfg.max_index
      → Agrees cfg'.logs cfg'.max_index
  read_msg-Agrees i m cfg cfg' h a = elim (Bool-cases m.command_valid) [
    | inr other ↦
        let same_logs : cfg'.logs ≡ cfg.logs = unfold read_msg in ground (arith, other) in
        let same_max : cfg'.max_index ≡ cfg.max_index = unfold read_msg in ground (arith, other) in
        rw (same_logs, same_max) a
    | inl valid ↦
        let r = read_msg-Reads i m cfg cfg' valid h in
        subst (Agrees cfg'.logs) (sym r.max') (
          subst (λ ls. Agrees ls (max cfg.max_index m.command_index)) (sym r.logs')
            (Agrees-set i m.command_index m.command cfg.logs cfg.max_index r.log r.at
              (is_taken-false eq m.command_index m.command cfg.logs r.free) r.prev a))
  ]

  read_msg-quiet :
      (i : ℕ) (m : ApplyMsg C B) (cfg cfg' : Config C B)
      → read_msg eq i m cfg ≡ some cfg'
      → (cfg'.apply_err ≡ cfg.apply_err) × (length cfg'.logs ≡ length cfg.logs)
  unfolding read_msg
  read_msg-quiet i m cfg cfg' h = elim (Bool-cases m.command_valid) [
    | inr other ↦ ground (arith, other)
    | inl valid ↦
        let r = read_msg-Reads i m cfg cfg' valid h in
        ground (
          arith,
          valid,
          r.at,
          r.logs',
          length-set cfg.logs i (insert m.command_index m.command r.log),
        )
  ]

  read_msg-IsSound :
      (i : ℕ) (m : ApplyMsg C B) (cfg cfg' : Config C B)
      → read_msg eq i m cfg ≡ some cfg'
      → IsSound cfg
      → IsSound cfg'
  read_msg-IsSound i m cfg cfg' h s =
      let (errs, len) = read_msg-quiet i m cfg cfg' h in
      record {
        agrees = read_msg-Agrees i m cfg cfg' h s.agrees;
        quiet = errs ∙ s.quiet ∙ ap (λ n. replicate n false) (sym len);
      }

  pub read_all-IsSound :
      (msgs : List (ℕ × ApplyMsg C B)) (cfg cfg' : Config C B)
      → read_all eq msgs cfg ≡ some cfg'
      → IsSound cfg
      → IsSound cfg'
  unfolding read_all
  read_all-IsSound [] cfg cfg' h s = let same : cfg ≡ cfg' = ground arith in subst IsSound same s
  read_all-IsSound ((i, m) ∷ msgs) cfg cfg' h s = elim (Option-cases (read_msg eq i m cfg)) [
    | inl e ↦ absurd (ground (arith, e))
    | inr (next, e) ↦
        read_all-IsSound msgs next cfg' (ground (arith, e)) (read_msg-IsSound i m cfg next e s)
  ]

  pub IsFresh-IsSound : (cfg : Config C B) → IsFresh cfg → IsSound cfg
  IsFresh-IsSound cfg f =
      let empty : (i k : ℕ) → holds cfg.logs i k ≡ none =
        λ i k. rw f.logs (holds-empty cfg.n i k) in
      record {
        agrees = record {
          same = λ i j k v w h h'. absurd (ground (arith, empty i k));
          no_gap = λ i k lt h. absurd (h (empty i k));
          below = λ i k h. absurd (h (empty i k));
        };
        quiet =
            f.apply_err
            ∙ ap (λ n. replicate n false) (sym (ap length f.logs ∙ length-replicate cfg.n []));
      }

  -- Where the readers accept every message that they get, in any order, two servers have the same value
  -- under an index that both have, each server has all indexes from 1 up to its last one, and none is
  -- above the maximum.
  pub read_all-Agrees :
      (msgs : List (ℕ × ApplyMsg C B)) (cfg cfg' : Config C B)
      → IsFresh cfg
      → read_all eq msgs cfg ≡ some cfg'
      → Agrees cfg'.logs cfg'.max_index
  read_all-Agrees msgs cfg cfg' f h =
      (read_all-IsSound msgs cfg cfg' h (IsFresh-IsSound cfg f)).agrees

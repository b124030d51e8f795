-- ===== src/Raft/Delivery.antt =====
-- What the service gets: the messages of `applyLogEntryDaemon` in raft/raft.go against the log.
use golang_deep_distributed.Prelude.{
  ℕ, zero, suc, ◌+◌, ◌-◌, ◌≤◌, ◌<◌, ◌≡◌, refl, ap, ◌∙◌, inl, inr, true, false, Option, none, some,
  List, [], ◌∷◌, ◌++◌, length-append, arith, ltb, if◌then◌else◌, Bool-cases, ◌>>=◌, length,
  get_elem?, take, drop, length-take, get_elem?-drop,
}
use golang_deep_distributed.Raft.State.{Raft, LogEntry, ApplyMsg, log_at}
use golang_deep_distributed.Raft.Apply.{messages, apply_log_entries}

module _ {ℓ} {A : Type ℓ} where
  get_elem?-take :
      (n : ℕ) (xs : List A) (i : ℕ)
      → get_elem? (take n xs) i ≡ (if ltb i n then get_elem? xs i else none)
  get_elem?-take zero xs i = ground arith
  get_elem?-take (suc n) [] i = ground arith
  get_elem?-take (suc n) (x ∷ xs) zero = ground arith
  get_elem?-take (suc n) (x ∷ xs) (suc i) = ground (arith, get_elem?-take n xs i)

module _ {ℓ} {A : Type ℓ} where
  take-append_inside : (n : ℕ) (xs ys : List A) → n ≤ length xs → take n (xs ++ ys) ≡ take n xs
  take-append_inside zero xs ys h = refl
  take-append_inside (suc n) [] ys h = absurd (omega (arith, h))
  take-append_inside (suc n) (x ∷ xs) ys h =
      ap (λ zs. x ∷ zs) (take-append_inside n xs ys (omega (arith, h)))

module _ {C B : Type 0} (nil_bytes : B) where
  -- The message for a log entry.
  abbrev pub delivery : ℕ → LogEntry C → ApplyMsg C B
  delivery i entry = record {
    command_valid = true;
    command = entry.command;
    command_index = i;
    use_snapshot = false;
    snapshot = nil_bytes;
  }

  get_elem?-messages :
      (es : List (LogEntry C)) (i k : ℕ)
      → get_elem? (messages nil_bytes i es) k ≡ (get_elem? es k >>= λ e. some (delivery (i + k) e))
  unfolding messages
  get_elem?-messages [] i k = refl
  get_elem?-messages (e ∷ es) i zero = ap (λ n. some (delivery n e)) (omega arith)
  get_elem?-messages (e ∷ es) i (suc k) =
      get_elem?-messages es (i + 1) k
      ∙ ap (λ n. get_elem? es k >>= λ e'. some (delivery n e')) (omega arith)

  -- What the service is to get for an index: the message for the entry there.
  abbrev pub delivered : Raft C B → ℕ → Option (ApplyMsg C B)
  delivered rf i = log_at rf i >>= λ e. some (delivery i e)

  -- One pass of the apply daemon, where the snapshot covers nothing that is not applied and the log
  -- reaches the commit index: it does not fault, everything committed counts as applied, and the
  -- messages are those of the entries after the last one applied up to the commit index, one for each,
  -- in the order of the log, under their indexes, whatever the array holds beyond the log.
  pub apply_log_entries_lem :
      (beyond : List (LogEntry C)) (rf : Raft C B)
      → rf.snapshot_index ≤ rf.last_applied
      → rf.last_applied ≤ rf.commit_index
      → rf.commit_index < length rf.logs + rf.snapshot_index
      → (msgs : List (ApplyMsg C B)) × (apply_log_entries nil_bytes beyond rf
          ≡ some (record rf { last_applied = rf.commit_index }, msgs))
        × ((k : ℕ)
            → get_elem? msgs k ≡ (
                if ltb k (rf.commit_index - rf.last_applied)
                then delivered rf (rf.last_applied + 1 + k)
                else none))
  unfolding apply_log_entries
  apply_log_entries_lem beyond rf snap applied inside =
      let lo = rf.last_applied + 1 - rf.snapshot_index in
      let hi = rf.commit_index + 1 - rf.snapshot_index in
      elim (Bool-cases (ltb rf.last_applied rf.commit_index)) [
        | inl new ↦ (
          messages nil_bytes (rf.last_applied + 1) (drop lo (take hi rf.logs)),
          ground (
            arith,
            new,
            length-take hi rf.logs,
            length-append rf.logs beyond,
            take-append_inside hi rf.logs beyond (omega (arith, snap, applied, inside)),
          ),
          λ k.
              let at : lo + k ≡ rf.last_applied + 1 + k - rf.snapshot_index = omega arith in
              let upto = get_elem?-take hi rf.logs (lo + k) in
              get_elem?-messages (drop lo (take hi rf.logs)) (rf.last_applied + 1) k
              ∙ elim (Bool-cases (ltb k (rf.commit_index - rf.last_applied))) [
                | inl within ↦
                    let entry : get_elem? (drop lo (take hi rf.logs)) k
                        ≡ log_at rf (rf.last_applied + 1 + k) =
                      ground (arith, get_elem?-drop lo (take hi rf.logs) k, upto, at, within) in
                    ground (arith, entry, within)
                | inr past ↦
                    let entry : get_elem? (drop lo (take hi rf.logs)) k ≡ none =
                      ground (arith, get_elem?-drop lo (take hi rf.logs) k, upto, past) in
                    ground (arith, entry, past)
              ],
        )
        | inr idle ↦ (
          [],
          (let same : rf.last_applied ≡ rf.commit_index = ground (arith, idle) in
              let none_new : apply_log_entries nil_bytes beyond rf ≡ some (rf, []) =
                ground (arith, idle) in
              none_new ∙ ap (λ n. some (record rf { last_applied = n }, [])) same),
          λ k. ground (arith, idle),
        )
      ]

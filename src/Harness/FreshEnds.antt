-- ===== src/Harness/FreshEnds.antt =====
-- What `disconnectUnlocked` of kvraft/config.go leaves alone, and the making of ends under fresh names.
use golang_deep_distributed.Prelude.{
  ℕ, ◌+◌, ◌≡◌, refl, ◌∙◌, inl, inr, Bool, false, Option, none, some, List, [], ◌∷◌, arith,
  Option-cases, ◌>>=◌, get_elem?,
}
use golang_deep_distributed.Prelude.Dict.{Dict, lookup, insert, nat_eq, lookup-insert}
use golang_deep_distributed.Labrpc.Network.{Network, enable, make_end, connect as connect_end}
use golang_deep_distributed.Harness.Servers.{make_ends, names_of}
use golang_deep_distributed.Harness.Service.{switch_outgoing, disconnect_from, disconnect_unlocked}
use golang_deep_distributed.Harness.Starting.{has}

switch_outgoing-ends :
    (on : Bool) (names to : List ℕ) (rn rn' : Network)
    → switch_outgoing on names to rn ≡ some rn'
    → rn'.ends ≡ rn.ends
unfolding switch_outgoing enable
switch_outgoing-ends on names [] rn rn' h = ground (arith, h)
switch_outgoing-ends on names (j ∷ to) rn rn' h = elim (Option-cases (get_elem? names j)) [
  | inl e ↦ absurd (ground (arith, e, h))
  | inr (name, e) ↦ switch_outgoing-ends on names to (enable name on rn) rn' (ground (arith, e, h))
]

disconnect_from-ends :
    (endnames : List (Option (List ℕ))) (i k : ℕ) (from : List ℕ) (rn rn' : Network)
    → disconnect_from endnames i k from rn ≡ some rn'
    → rn'.ends ≡ rn.ends
unfolding disconnect_from enable
disconnect_from-ends endnames i k [] rn rn' h = ground (arith, h)
disconnect_from-ends endnames i k (j ∷ from) rn rn' h = elim (Option-cases (get_elem? endnames k)) [
  | inl e ↦ absurd (ground (arith, e, h))
  | inr (none, e) ↦ disconnect_from-ends endnames i (k + 1) from rn rn' (ground (arith, e, h))
  | inr (some g, e) ↦
      elim (Option-cases (get_elem? endnames j >>= λ es. get_elem? (names_of es) i)) [
        | inl f ↦ absurd (ground (arith, e, f, h))
        | inr (name, f) ↦
            disconnect_from-ends endnames i (k + 1) from (enable name false rn) rn'
              (ground (arith, e, f, h))
      ]
]

pub disconnect_unlocked-ends :
    (endnames : List (Option (List ℕ))) (i : ℕ) (from : List ℕ) (rn rn' : Network)
    → disconnect_unlocked endnames i from rn ≡ some rn'
    → rn'.ends ≡ rn.ends
unfolding disconnect_unlocked
disconnect_unlocked-ends endnames i from rn rn' h = elim (Option-cases (get_elem? endnames i)) [
  | inl e ↦ absurd (ground (arith, e, h))
  | inr (none, e) ↦ disconnect_from-ends endnames i 0 from rn rn' (ground (arith, e, h))
  | inr (some names, e) ↦ elim (Option-cases (switch_outgoing false names from rn)) [
    | inl f ↦ absurd (ground (arith, e, f, h))
    | inr (mid, f) ↦
        disconnect_from-ends endnames i 0 from mid rn' (ground (arith, e, f, h))
        ∙ switch_outgoing-ends false names from rn mid f
  ]
]

-- Names that no end has, and that differ from each other.
abbrev pub AreFresh : List (ℕ × ℕ) → Dict ℕ ℕ → Type 0
AreFresh [] ends = Unit
AreFresh ((name, pointer) ∷ names) ends =
    (lookup name ends ≡ none) × (has names name ≡ false) × AreFresh names ends

pub AreFresh-insert :
    (names : List (ℕ × ℕ)) (ends : Dict ℕ ℕ) (name pointer : ℕ)
    → has names name ≡ false
    → AreFresh names ends
    → AreFresh names (insert name pointer ends)
AreFresh-insert [] ends name pointer absent fresh = tt
AreFresh-insert ((x, p) ∷ names) ends name pointer absent (new, once, rest) = (
  ground (arith, absent, new, lookup-insert name x pointer ends),
  once,
  AreFresh-insert names ends name pointer (ground (arith, absent)) rest,
)

pub make_ends_total :
    (j : ℕ) (names : List (ℕ × ℕ)) (rn : Network)
    → AreFresh names rn.ends
    → (rn' : Network) × (make_ends j names rn ≡ some rn')
unfolding make_ends make_end connect_end
make_ends_total j [] rn fresh = (rn, refl)
make_ends_total j ((name, pointer) ∷ names) rn (new, once, rest) =
    let next : Network = record rn {
      ends = insert name pointer rn.ends;
      enabled = insert name false rn.enabled;
      connections = insert name (some j) (insert name none rn.connections);
    } in
    let (rn', run) =
      make_ends_total (j + 1) names next (AreFresh-insert names rn.ends name pointer once rest) in
    (rn', ground (arith, new, run))

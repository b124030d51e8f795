-- ===== src/Persister.antt =====
-- raft/persister.go: the stable storage of one server, and the interface of the encoder that
-- fills it. The store keeps byte slices and looks at nothing but their length, so it is generic in
-- the type of byte slices.
use golang_deep_distributed.Prelude.{ℕ, ◌≤◌, ◌≡◌, List, ◌∷◌}

-- The documented behaviour of encoding/gob (and of labgob, which passes each value on to it) that
-- the code relies on. A buffer holds the values that one encoder wrote, in order, and one decoder
-- reads them back; `len` is Go's `len` of the buffer.
pub record Gob (V B : Type 0) : Type 0 where
  pub nil : B
  pub len : B → ℕ
  pub encode : List V → B
  pub decode : B → List V
  pub len-nil : len nil ≡ 0
  pub len-encode : (v : V) (vs : List V) → 1 ≤ len (encode (v ∷ vs))
  pub decode-encode : (vs : List V) → decode (encode vs) ≡ vs

pub record Persister (B : Type 0) : Type 0 where
  pub raftstate : B
  pub snapshot : B

module _ {V B : Type 0} (gob : Gob V B) where
  unfoldable pub make_persister : Persister B
  make_persister = record { raftstate = gob.nil; snapshot = gob.nil }

  unfoldable pub raft_state_size : Persister B → ℕ
  raft_state_size ps = gob.len ps.raftstate

  unfoldable pub snapshot_size : Persister B → ℕ
  snapshot_size ps = gob.len ps.snapshot

  unfoldable pub copy : Persister B → Persister B
  unfolding make_persister
  copy ps =
      let np = make_persister in record np { raftstate = ps.raftstate; snapshot = ps.snapshot }

module _ {B : Type 0} where
  unfoldable pub save_raft_state : Persister B → B → Persister B
  save_raft_state ps state = record ps { raftstate = state }

  unfoldable pub read_raft_state : Persister B → B
  read_raft_state ps = ps.raftstate

  unfoldable pub save_state_and_snapshot : Persister B → B → B → Persister B
  save_state_and_snapshot ps state snapshot = record ps { raftstate = state; snapshot = snapshot }

  unfoldable pub read_snapshot : Persister B → B
  read_snapshot ps = ps.snapshot

  unfoldable pub save_snapshot : Persister B → B → Persister B
  save_snapshot ps snapshot = record ps { snapshot = snapshot }

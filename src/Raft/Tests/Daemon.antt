-- ===== src/Raft/Tests/Daemon.antt =====
-- The election daemon over a few events: the timer expires and starts a canvass, and is then reset.
use golang_deep_distributed.Prelude.{ℕ, ◌≤◌, ◌≡◌, refl, some, List, [], ◌∷◌}
use golang_deep_distributed.Raft.Daemon.{
  Event, armed, expires, fires, reset, shutdown, election_daemon, expirations,
  election_daemon_total,
}

abbrev events : List Event
events = expires ∷ fires ∷ expires ∷ reset ∷ shutdown ∷ []

runs : election_daemon events armed ≡ some 1
unfolding election_daemon
runs = refl

election_daemon_total_example :
    (n : ℕ) × (election_daemon events armed ≡ some n) × (n ≤ expirations events)
election_daemon_total_example = election_daemon_total events

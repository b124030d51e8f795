-- ===== src/Raft/Daemon.antt =====
-- raft/raft.go: `electionDaemon` and its timer.
--
-- Time is not modelled: that the timer expires is an event. A timer is armed, has expired with its
-- signal still in its channel, or has expired with the channel drained.
use golang_deep_distributed.Prelude.{
  ℕ, suc, ◌+◌, ◌≤◌, ◌≡◌, refl, Bool, true, false, Option, none, some, List, [], ◌∷◌, arith,
  if◌then◌else◌, ◌>>=◌,
}

pub data Timer : Type 0 where
  armed expired drained : Timer

-- What happens next: the timer expires, or the daemon's `select` takes one of its cases.
pub data Event : Type 0 where
  expires : Event
  shutdown : Event
  reset : Event
  fires : Event

-- `if !rf.electionTimer.Stop() { <-rf.electionTimer.C }`, then `Reset`. To read a drained channel
-- blocks for ever (`none`).
abbrev pub restart : Timer → Option Timer
restart armed = some armed
restart expired = some armed
restart drained = none

abbrev pub expire : Timer → Timer
expire armed = expired
expire t = t

abbrev pub has_fired : Timer → Bool
has_fired expired = true
has_fired t = false

-- One event: the timer, whether the daemon goes on, and how many canvasses it started. The case
-- `<-rf.electionTimer.C` is taken only if the channel has the signal.
unfoldable pub election_daemon_step : Event → Timer → Option (Timer × Bool × ℕ)
election_daemon_step expires t = some (expire t, true, 0)
election_daemon_step shutdown t = some (t, false, 0)
election_daemon_step reset t = restart t >>= λ t'. some (t', true, 0)
election_daemon_step fires t = some (if has_fired t then (armed, true, 1) else (t, true, 0))

-- The daemon over the events: how many canvasses it starts until it returns, or so far.
unfoldable pub election_daemon : List Event → Timer → Option ℕ
unfolding election_daemon_step
election_daemon [] t = some 0
election_daemon (e ∷ events) t =
    let rest = λ (t' : Timer). election_daemon events t' in
    election_daemon_step e t >>= λ (t', on, n).
    if on then (rest t' >>= λ m. some (n + m)) else some n

abbrev pub expirations : List Event → ℕ
expirations [] = 0
expirations (expires ∷ events) = suc (expirations events)
expirations (e ∷ events) = expirations events

-- A timer that nobody drained: it has expired, or not.
abbrev undrained : Bool → Timer
undrained true = expired
undrained false = armed

abbrev waiting : Bool → ℕ
waiting true = 1
waiting false = 0

election_daemon-le :
    (events : List Event) (b : Bool)
    → (n : ℕ) × (election_daemon events (undrained b) ≡ some n)
      × (n ≤ expirations events + waiting b)
unfolding election_daemon
election_daemon-le [] b = (0, refl, omega arith)
election_daemon-le (expires ∷ events) true =
    let (n, run, le) = election_daemon-le events true in (n, ground (arith, run), omega arith)
election_daemon-le (expires ∷ events) false =
    let (n, run, le) = election_daemon-le events true in (n, ground (arith, run), omega arith)
election_daemon-le (shutdown ∷ events) true = (0, refl, omega arith)
election_daemon-le (shutdown ∷ events) false = (0, refl, omega arith)
election_daemon-le (reset ∷ events) true =
    let (n, run, le) = election_daemon-le events false in (n, ground (arith, run), omega arith)
election_daemon-le (reset ∷ events) false =
    let (n, run, le) = election_daemon-le events false in (n, ground (arith, run), omega arith)
election_daemon-le (fires ∷ events) true =
    let (n, run, le) = election_daemon-le events false in (suc n, ground (arith, run), omega arith)
election_daemon-le (fires ∷ events) false =
    let (n, run, le) = election_daemon-le events false in (n, ground (arith, run), omega arith)

-- The daemon never blocks on its timer's channel, whatever the order of events, and it starts at most
-- one canvass for each time that the timer expires.
pub election_daemon_total :
    (events : List Event)
    → (n : ℕ) × (election_daemon events armed ≡ some n) × (n ≤ expirations events)
election_daemon_total events =
    let (n, run, le) = election_daemon-le events false in (n, run, omega arith)

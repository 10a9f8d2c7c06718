-- ===== src/Waiting.antt =====
-- internal/run/run.go and internal/restore/restore.go: the loops that wait for the server. Time is
-- a number; a probe answers and says how long it took.
mod Ended
mod Examples
use my_sql_backup.Base.{ℕ, zero, suc, ◌+◌, Bool, true, false, Option, none, some}
use my_sql_backup.Base.Tests.{ltb, if◌then◌else◌}

-- What a probe that begins at a time answers, and how long it takes.
pub record Probe : Type 0 where
  pub answer : (now : ℕ) → Bool
  pub took : (now : ℕ) → ℕ

module _ (probe : Probe) (interval deadline : ℕ) where
  -- The loop of both functions, `none` where the fuel does not suffice.
  unfoldable pub wait_until : (fuel now : ℕ) → Option Bool
  wait_until zero now = none
  wait_until (suc fuel) now =
      let rest = wait_until fuel (now + probe.took now + interval) in
      if ltb now deadline then if probe.answer now then some true else rest else some false

-- `waitForMySQL`, where the probe is `conn.Reachable() == nil`.
unfoldable pub wait_for_my_sql : Probe → (timeout interval start fuel : ℕ) → Option Bool
wait_for_my_sql reachable timeout interval start fuel =
    wait_until reachable interval (start + timeout) fuel start

abbrev pub same : Bool → Bool → Bool
same true b = b
same false true = false
same false false = true

-- The probe of `waitForPortState`: whether the port is as it is wanted.
abbrev pub wanting : (want_open : Bool) → Probe → Probe
wanting want_open reachable = record {
  answer = λ now. same want_open (reachable.answer now);
  took = reachable.took;
}

-- `waitForPortState`, where the probe is `portReachable`.
unfoldable pub wait_for_port_state :
    Probe → (want_open : Bool) (timeout interval start fuel : ℕ) → Option Bool
wait_for_port_state reachable want_open timeout interval start fuel =
    wait_until (wanting want_open reachable) interval (start + timeout) fuel start

-- ===== src/Waiting/Ended.antt =====
-- The loops that wait come to an end, and what their answer says.
use my_sql_backup.Base.{
  ℕ, zero, suc, ◌+◌, ◌-◌, ◌*◌, ◌≤◌, ◌<◌, ◌≡◌, refl, inl, inr, Bool, true, false, Option, some,
  arith,
}
use my_sql_backup.Base.Tests.{ltb, Bool-cases}
use my_sql_backup.Waiting.{Probe, wanting, wait_until, wait_for_my_sql, wait_for_port_state}

module _ (probe : Probe) (interval start : ℕ) where
  -- The time at which a round begins.
  abbrev pub round_at : (k : ℕ) → ℕ
  round_at zero = start
  round_at (suc k) = let now = round_at k in now + probe.took now + interval

  -- The rounds before are in time and answered otherwise.
  abbrev pub Unanswered : (deadline k : ℕ) → Type 0
  Unanswered deadline zero = Unit {0}
  Unanswered deadline (suc k) =
      Unanswered deadline k × (round_at k < deadline) × (probe.answer (round_at k) ≡ false)

  -- The round `k` is in time and answered as wanted, or the time is over.
  abbrev pub IsLast : (deadline k : ℕ) → Bool → Type 0
  IsLast deadline k true = (round_at k < deadline) × (probe.answer (round_at k) ≡ true)
  IsLast deadline k false = deadline ≤ round_at k

  -- Each round takes the interval at least.
  round_at-bound : (k : ℕ) → start + k * interval ≤ round_at k
  round_at-bound zero = omega arith
  round_at-bound (suc k) = omega (arith, round_at-bound k)

  abbrev Ends : (deadline : ℕ) → Option Bool → Type 0
  Ends deadline r =
      (k : ℕ) × (b : Bool) × (r ≡ some b) × Unanswered deadline k × IsLast deadline k b

  wait_until-Ends :
      (deadline fuel k : ℕ)
      → 1 ≤ interval
      → Unanswered deadline k
      → (deadline - round_at k) < fuel
      → Ends deadline (wait_until probe interval deadline fuel (round_at k))
  unfolding wait_until
  wait_until-Ends deadline zero k i u h = absurd (omega (arith, h))
  wait_until-Ends deadline (suc fuel) k i u h = elim (Bool-cases (ltb (round_at k) deadline)) [
    | inr n ↦ (k, false, rw n refl, u, ground arith)
    | inl y ↦ elim (Bool-cases (probe.answer (round_at k))) [
      | inl a ↦ (k, true, rw (y, a) refl, u, (ground arith, a))
      | inr a ↦
          let r = wait_until-Ends deadline fuel (suc k) i (u, ground arith, a) (ground arith) in
          (r.0, r.1, rw (y, a) r.2, r.3, r.4)
    ]
  ]

  -- The answer of a waiting loop: a round in time is the first that was answered as wanted, or all
  -- rounds in time were answered otherwise. As many intervals have passed as there were rounds
  -- before.
  abbrev pub HasEnded : (timeout : ℕ) → Option Bool → Type 0
  HasEnded timeout r =
      (k : ℕ) × (b : Bool) × (r ≡ some b)
      × Unanswered (start + timeout) k
      × IsLast (start + timeout) k b
      × (start + k * interval ≤ round_at k)

-- Both waiting loops end, if the interval is not zero: fuel for one round more than the timeout has
-- units of time is enough, whatever the probes answer and however long they take. The answer is
-- yes if a round in time finds the server as wanted, the first such round, and no if there is
-- none.
pub wait-HasEnded :
    (reachable : Probe) (want_open : Bool) (timeout interval start : ℕ)
    → 1 ≤ interval
    → HasEnded reachable interval start timeout
        (wait_for_my_sql reachable timeout interval start (suc timeout))
      × HasEnded
          (wanting want_open reachable)
          interval
          start
          timeout
          (wait_for_port_state reachable want_open timeout interval start (suc timeout))
unfolding wait_for_my_sql wait_for_port_state
wait-HasEnded reachable want_open timeout interval start i =
    (ended reachable, ended (wanting want_open reachable))
  where
    ended :
        (probe : Probe)
        → HasEnded probe interval start timeout
            (wait_until probe interval (start + timeout) (suc timeout) start)
    ended probe =
        let r =
          wait_until-Ends probe interval start (start + timeout) (suc timeout) 0 i tt
            (omega arith) in
        (r.0, r.1, r.2, r.3, r.4, round_at-bound probe interval start r.0)

-- ===== src/Probe/Elapsed.antt =====
-- What `LBTest::recv` takes for the time of an answer.
use vyatta_wanloadbalance.Common.{
  ℕ, ◌+◌, ◌-◌, ◌*◌, ◌/◌, ◌≤◌, ◌<◌, ◌≡◌, pos, ◌+ℤ◌, ◌-ℤ◌, ◌<ℤ◌, arith,
}
use vyatta_wanloadbalance.Probe.{times_1000, distance, elapsed}

-- The microseconds of a clock reading.
abbrev pub micros : ℕ × ℕ → ℕ
micros (sec, usec) = 1000000 * sec + usec

-- The milliseconds between two readings.
abbrev pub millis : ℕ × ℕ → ℕ × ℕ → ℕ
millis sent received = (micros received - micros sent) / 1000

-- For clock readings of less than a million microseconds, the second not before the first. If the
-- microseconds have not fallen, the time of an answer is right. If they have, by d, it counts d
-- where it should count a second less d: it is too short if d is less than 499 ms, and too long if
-- d is more than 501 ms.
pub elapsed_judges :
    (sec usec sec' usec' : ℕ)
    → usec < 1000000
    → usec' < 1000000
    → micros (sec, usec) ≤ micros (sec', usec')
    → (usec ≤ usec' → elapsed (sec, usec) (sec', usec') ≡ pos (millis (sec, usec) (sec', usec')))
      × (usec' < usec
          → usec < usec' + 499000
          → elapsed (sec, usec) (sec', usec') <ℤ pos (millis (sec, usec) (sec', usec')))
      × (usec' + 501000 < usec
          → pos (millis (sec, usec) (sec', usec')) <ℤ elapsed (sec, usec) (sec', usec'))
unfolding elapsed times_1000 distance ◌+ℤ◌ ◌-ℤ◌
elapsed_judges sec usec sec' usec' h h' le =
    (λ a. ground arith, λ a b. ground arith, λ a. ground arith)

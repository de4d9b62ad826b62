-- ===== src/Examples/Status.antt =====
-- Times of the status file.
use vyatta_wanloadbalance.Common.{◌-◌, ◌^◌, ◌≡◌, arith}
use vyatta_wanloadbalance.Output.{duration, success_diff, failure_diff}
use vyatta_wanloadbalance.Output.Durations.{read_duration, read_duration-duration, clock_set_back}

read_duration-duration_example : read_duration 0 0 (duration 90061) ≡ 90061
read_duration-duration_example = read_duration-duration 90061

clock_set_back_example :
    (success_diff 1000 1007 ≡ 0) × (failure_diff 1000 1007 ≡ 2 ^ 64 - (1007 - 1000))
clock_set_back_example = clock_set_back 1000 1007 (ground arith) (ground arith)

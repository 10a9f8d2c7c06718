-- ===== src/Waiting/Examples.antt =====
-- A waiting for a server that opens its port at the time 5, and the theorem at concrete data.
use my_sql_backup.Base.{◌≡◌, refl, true, false, some, arith}
use my_sql_backup.Base.Tests.{leb}
use my_sql_backup.Waiting.{Probe, wanting, wait_until, wait_for_my_sql, wait_for_port_state}
use my_sql_backup.Waiting.Ended.{HasEnded, wait-HasEnded}

abbrev opening : Probe
opening = record { answer = λ now. leb 5 now; took = λ now. 1 }

found_open : wait_for_my_sql opening 60 2 0 61 ≡ some true
unfolding wait_for_my_sql wait_until
found_open = refl

too_late : wait_for_my_sql opening 4 2 0 5 ≡ some false
unfolding wait_for_my_sql wait_until
too_late = refl

wait-HasEnded_example :
    HasEnded opening 2 0 60 (wait_for_my_sql opening 60 2 0 61)
    × HasEnded (wanting false opening) 2 0 60 (wait_for_port_state opening false 60 2 0 61)
wait-HasEnded_example = wait-HasEnded opening false 60 2 0 (omega arith)

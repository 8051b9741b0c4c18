-- ===== src/Examples/Upkeep.antt =====
-- The theorems on recovery and on the reported times at concrete inputs.
use smart_dialerss.Prelude.{◌≡◌, [], none}
use smart_dialerss.Recovery.{run_sweeps}
use smart_dialerss.Recovery.Completion.{KeepsTo, run_sweeps-errors}
use smart_dialerss.Examples.{in_memory, settings, under_way, clock}

run_sweeps-errors_example :
    let counts = (run_sweeps in_memory settings (λ _ _. none) under_way 200000 clock).0 in
    (counts.errors ≡ [])
    × KeepsTo in_memory settings 500 counts.heartbeat_timeouts
    × KeepsTo in_memory settings 500 counts.stuck_wrap_ups
run_sweeps-errors_example =
    run_sweeps-errors in_memory settings (λ _ _. none) under_way 200000 clock

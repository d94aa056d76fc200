-- ===== src/Crdt/Clocks/Tests.antt =====
-- Runs of the clock, and the theorems about it at concrete histories.
use conflict_free_oltp_v.Base.{◌≡◌, refl, [], ◌∷◌, List, arith, str}
use conflict_free_oltp_v.Crdt.Clocks.{HlcTimestamp, HlcClock, tick, observe}
use conflict_free_oltp_v.Crdt.Clocks.Monotone.{
  Event, Ascends, current, run, run-Ascends, run-after_receive,
}

abbrev remote_stamp : HlcTimestamp
remote_stamp = record { wall_ms = 999; logical = 42; peer_id = str "B" }

abbrev clock : HlcClock
clock = record { peer_id = str "A"; max_wall_ms = 0; max_logical = 0 }

abbrev history : List Event
history = Event.local 10 ∷ Event.local 10 ∷ Event.receive 11 remote_stamp ∷ Event.local 5 ∷ []

tick_same_wall :
    (tick (tick clock 10).0 10).1 ≡ record { wall_ms = 10; logical = 1; peer_id = str "A" }
unfolding tick
tick_same_wall = refl

observe_remote :
    (observe clock 5 remote_stamp).1 ≡ record { wall_ms = 999; logical = 43; peer_id = str "A" }
unfolding observe
observe_remote = refl

run-Ascends_example : Ascends (current clock) (run clock history)
run-Ascends_example = run-Ascends clock history 42 (omega arith) (omega arith) (omega arith)

run-after_receive_example :
    Ascends remote_stamp (run clock (Event.receive 7 remote_stamp ∷ history))
run-after_receive_example =
    run-after_receive clock 7 remote_stamp history 42 (omega arith) (omega arith) (omega arith)
      (omega arith)

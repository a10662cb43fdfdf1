-- ===== src/Telemetry/Tests.antt =====
-- Concrete names of models.
use obolus.Prelude.{◌+◌, ◌≤◌, ◌≡◌, refl, true, false, [], ◌∷◌, length, arith}
use obolus.Pricing.{u64_max}
use obolus.Amount.{to_decimal}
use obolus.Telemetry.{RequestEvent, default_trace, finish, unroutable, ambiguous_key}
use obolus.Telemetry.Sink.{
  LineSink, spawn, record_event, drain, request_line, drop_line, dropped_line, Reaches, spawned,
  records, drains,
}
use obolus.Telemetry.Stream.{Keeps, accounted, losses, missing}
use obolus.Telemetry.Kept.{IsTidy, Reaches-IsTidy, Reaches-Keeps}
use obolus.Telemetry.{prefix_within}

-- A character that does not fit is left out whole.
whole_characters : prefix_within 3 "aéé" ≡ "aé"
unfolding prefix_within
whole_characters = refl

abbrev early : RequestEvent
unfolding finish
early = finish default_trace unroutable 1700000000000

abbrev late : RequestEvent
unfolding finish
late = finish default_trace ambiguous_key 1700000000001

-- A queue of one event drops the second, and says so before the line of the first, which the writer
-- does not take.
abbrev crowded : LineSink
unfolding record_event drain finish
crowded = drain false 1700000000002 (
    drain true 1700000000002 (
      drain true 1700000000002
        (drain true 1700000000002 (record_event 1 late (record_event 1 early spawn)))))

abbrev crowded_run : Reaches 1 (early ∷ late ∷ []) (request_line early ∷ []) crowded
unfolding record_event drain finish
crowded_run =
    drains
      (drains
        (drains (drains (records (records spawned refl early) refl late) true 1700000000002) true
          1700000000002)
        true 1700000000002)
      false 1700000000002

crowded_stream : (crowded.stream ≡ drop_line 1 1700000000002 ∷ []) × (crowded.warnings ≡ 1)
unfolding record_event drain finish
crowded_stream = (refl, refl)

drop_text :
    dropped_line 1 1700000000002
    ≡ "{\"v\":1,\"kind\":\"dropped\",\"ts_ms\":1700000000002,\"dropped\":1}"
unfolding dropped_line to_decimal
drop_text = refl

few : length (early ∷ late ∷ []) ≤ u64_max
few = omega arith

Reaches-IsTidy_example : IsTidy 1 (request_line early ∷ []) crowded
Reaches-IsTidy_example = Reaches-IsTidy 1 crowded_run

Reaches-Keeps_example :
    Keeps
      (early ∷ late ∷ [])
      (accounted crowded)
      (losses crowded + missing (request_line early ∷ []))
Reaches-Keeps_example = Reaches-Keeps 1 crowded_run few

-- ===== src/Telemetry/Sink.antt =====
-- `LineSink` of obolus/src/telemetry.rs: the queue that requests offer their events to, and the thread
-- that drains it into a stream of lines. A queue holds at least one event. The stream is the lines that
-- the writer took, each kept as what it says; what is printed on stderr is counted.
use Prim.Native.String.{◌++◌ as text_append}
use obolus.Prelude.{
  ℕ, zero, suc, ◌≡◌, ◌+◌, ◌%◌, ◌^◌, String, Bool, true, false, List, [], ◌∷◌, ◌++◌, length, ltb,
  if◌then◌else◌,
}
use obolus.Amount.{to_decimal}
use obolus.Telemetry.{RequestEvent}

abbrev pub schema_version : ℕ
schema_version = 1

abbrev pub default_queue : ℕ
default_queue = 1024

pub data Line : Type 0 where
  request_line : RequestEvent → Line
  drop_line : (count : ℕ) → (ts_ms : ℕ) → Line

-- `dropped_line`: the text of a `drop_line`.
unfoldable pub dropped_line : (count : ℕ) → (ts_ms : ℕ) → String
dropped_line count ts_ms = text_append "{\"v\":" (
    text_append (to_decimal schema_version) (
      text_append ",\"kind\":\"dropped\",\"ts_ms\":" (
        text_append (to_decimal ts_ms)
          (text_append ",\"dropped\":" (text_append (to_decimal count) "}")))))

-- What `recv_timeout` gives.
pub data Received : Type 0 where
  event : RequestEvent → Received
  timeout disconnected : Received

-- Where the thread stands in its loop: before the wait, before the `swap` of the count, before the
-- line of drops, before the line of the event; or it has returned.
pub data Phase : Type 0 where
  waiting : Phase
  woke : Received → Phase
  reporting : (lost : ℕ) → Received → Phase
  writing : Received → Phase
  gone : Phase

pub record LineSink : Type 0 where
  pub queue : List RequestEvent
  pub dropped_count : ℕ
  pub orphaned : Bool
  -- Whether a sender is left.
  pub connected : Bool
  pub phase : Phase
  pub failed : Bool
  pub warnings : ℕ
  pub stream : List Line

abbrev pub spawn : LineSink
spawn = record {
  queue = [];
  dropped_count = 0;
  orphaned = false;
  connected = true;
  phase = waiting;
  failed = false;
  warnings = 0;
  stream = [];
}

-- `try_send` while the thread is there: a full queue costs the event, which is counted.
abbrev pub enqueue : (capacity : ℕ) → RequestEvent → LineSink → LineSink
enqueue capacity e s =
    if ltb (length s.queue) capacity
    then record s { queue = s.queue ++ (e ∷ []) }
    else record s { dropped_count = (s.dropped_count + 1) % 2 ^ 64 }

abbrev pub try_send : (capacity : ℕ) → Phase → RequestEvent → LineSink → LineSink
try_send capacity gone e s = record s {
  orphaned = true;
  warnings = if s.orphaned then s.warnings else suc s.warnings;
}
try_send capacity _ e s = enqueue capacity e s

unfoldable pub record_event : (capacity : ℕ) → RequestEvent → LineSink → LineSink
record_event capacity e s = try_send capacity s.phase e s

abbrev pub received : (connected : Bool) → List RequestEvent → Received
received connected (e ∷ queue) = event e
received true [] = timeout
received false [] = disconnected

abbrev pub after_receive : List RequestEvent → List RequestEvent
after_receive [] = []
after_receive (e ∷ queue) = queue

-- A line that is put to the writer, which takes it or fails; the first failure is reported.
abbrev pub write_line : (succeeds : Bool) → Line → LineSink → LineSink
write_line true line s = record s { stream = s.stream ++ (line ∷ []) }
write_line false line s = record s {
  failed = true;
  warnings = if s.failed then s.warnings else suc s.warnings;
}

abbrev pub report_lost : (succeeds : Bool) → (ts_ms : ℕ) → (lost : ℕ) → LineSink → LineSink
report_lost succeeds ts_ms zero s = s
report_lost succeeds ts_ms (suc lost) s = write_line succeeds (drop_line (suc lost) ts_ms) s

-- One step of `drain`.
abbrev pub drain_from : (succeeds : Bool) → (ts_ms : ℕ) → Phase → LineSink → LineSink
drain_from succeeds ts_ms waiting s = record s {
  queue = after_receive s.queue;
  phase = woke (received s.connected s.queue);
}
drain_from succeeds ts_ms (woke next) s = record s {
  dropped_count = 0;
  phase = reporting s.dropped_count next;
}
drain_from succeeds ts_ms (reporting lost next) s = record (report_lost succeeds ts_ms lost s) {
  phase = writing next;
}
drain_from succeeds ts_ms (writing (event e)) s = record (write_line succeeds (request_line e) s) {
  phase = waiting;
}
drain_from succeeds ts_ms (writing timeout) s = record s { phase = waiting }
drain_from succeeds ts_ms (writing disconnected) s = record s { phase = gone }
drain_from succeeds ts_ms gone s = s

unfoldable pub drain : (succeeds : Bool) → (ts_ms : ℕ) → LineSink → LineSink
drain succeeds ts_ms s = drain_from succeeds ts_ms s.phase s

-- The line that a step puts to the writer in vain.
abbrev pub refusal : (succeeds : Bool) → Line → List Line
refusal true line = []
refusal false line = line ∷ []

abbrev pub missed : (succeeds : Bool) → (ts_ms : ℕ) → Phase → List Line
missed succeeds ts_ms (reporting (suc lost) next) = refusal succeeds (drop_line (suc lost) ts_ms)
missed succeeds ts_ms (writing (event e)) = refusal succeeds (request_line e)
missed succeeds ts_ms _ = []

-- What can happen to a sink that was spawned: `offered` holds the events that requests recorded and
-- `refused` the lines whose write failed, in their order. The sink is dropped with its gateway; nothing
-- records after that.
pub data Reaches (capacity : ℕ)
    : (offered : List RequestEvent) → (refused : List Line) → LineSink → Type 0 where
  spawned : Reaches capacity [] [] spawn
  records :
      {offered : List RequestEvent} {refused : List Line} {s : LineSink}
      → Reaches capacity offered refused s
      → s.connected ≡ true
      → (e : RequestEvent)
      → Reaches capacity (offered ++ (e ∷ [])) refused (record_event capacity e s)
  drains :
      {offered : List RequestEvent} {refused : List Line} {s : LineSink}
      → Reaches capacity offered refused s
      → (succeeds : Bool) (ts_ms : ℕ)
      → Reaches capacity offered (refused ++ missed succeeds ts_ms s.phase) (drain succeeds ts_ms s)
  hangs_up :
      {offered : List RequestEvent} {refused : List Line} {s : LineSink}
      → Reaches capacity offered refused s
      → Reaches capacity offered refused (record s { connected = false })

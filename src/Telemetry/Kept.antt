-- ===== src/Telemetry/Kept.antt =====
-- What holds of a line sink whatever happens to it, for `LineSink` of obolus/src/telemetry.rs.
use obolus.Prelude.{
  ℕ, zero, suc, ◌+◌, ◌-◌, ◌^◌, ◌≤◌, ◌<◌, ◌≡◌, ◌∙◌, inl, inr, refl, ap, sym, subst, Bool, true,
  false, List, [], ◌∷◌, ◌++◌, length, ltb, arith, Bool-cases, if◌then◌else◌,
}
use mathlib.Core.List.{append-nil, append_assoc}
use obolus.Pricing.{u64_max}
use obolus.Telemetry.{RequestEvent}
use obolus.Telemetry.Sink.{
  Line, request_line, drop_line, Received, refusal, missed, event, timeout, disconnected, Phase,
  waiting, woke, reporting, writing, gone, LineSink, enqueue, record_event, after_receive,
  write_line, report_lost, drain_from, drain, Reaches, spawned, records, drains, hangs_up,
}
use obolus.Telemetry.Stream.{
  missing, drain_from-Keeps, Keeps-kept_last, Keeps-lost_last, Keeps, nothing, keeps, loses,
  accounted, losses, runs, requests, held, try_send-runs, received-goes_on,
}

length-append_one :
    (es : List RequestEvent) (e : RequestEvent) → length (es ++ (e ∷ [])) ≡ suc (length es)
length-append_one [] e = refl
length-append_one (x ∷ es) e = ap suc (length-append_one es e)

-- Whether any line failed.
abbrev pub any_refused : List Line → Bool
any_refused [] = false
any_refused (line ∷ lines) = true

any_refused-last : (lines : List Line) (line : Line) → any_refused (lines ++ (line ∷ [])) ≡ true
any_refused-last [] line = refl
any_refused-last (l ∷ lines) line = refl

-- A sink some of whose lines, those of `refused`, failed: the thread goes on while a sender is left,
-- the queue is within its capacity, no event was refused for want of a thread, and there is one warning
-- if a line failed and none otherwise.
pub record IsTidy (capacity : ℕ) (refused : List Line) (s : LineSink) : Type 0 where
  pub running : s.connected ≡ true → runs s.phase ≡ true
  pub bounded : length s.queue ≤ capacity
  pub heard : s.orphaned ≡ false
  pub failed_said : s.failed ≡ any_refused refused
  pub warned : s.warnings ≡ (if any_refused refused then 1 else 0)

-- A phase that goes on where the sink's did.
IsTidy-phase :
    (capacity : ℕ) (refused : List Line) (p : Phase) (s : LineSink)
    → IsTidy capacity refused s
    → (s.connected ≡ true → runs p ≡ true)
    → IsTidy capacity refused (record s { phase = p })
IsTidy-phase capacity refused p s t h = record {
  running = h;
  bounded = t.bounded;
  heard = t.heard;
  failed_said = t.failed_said;
  warned = t.warned;
}

module _ (capacity : ℕ) (refused : List Line) where
  enqueue-IsTidy :
      (e : RequestEvent) (s : LineSink)
      → IsTidy capacity refused s
      → IsTidy capacity refused (enqueue capacity e s)
  enqueue-IsTidy e s t = elim (Bool-cases (ltb (length s.queue) capacity)) [
    | inl room ↦ rw room (record {
      running = t.running;
      bounded = let longer = length-append_one s.queue e in ground arith;
      heard = t.heard;
      failed_said = t.failed_said;
      warned = t.warned;
    })
    | inr full ↦ rw full (record {
      running = t.running;
      bounded = t.bounded;
      heard = t.heard;
      failed_said = t.failed_said;
      warned = t.warned;
    })
  ]

  nothing-IsTidy : (s : LineSink) → IsTidy capacity refused s → IsTidy capacity (refused ++ []) s
  nothing-IsTidy s t = subst (λ lines. IsTidy capacity lines s) (sym (append-nil refused)) t

  write_line-IsTidy :
      (succeeds : Bool) (line : Line) (s : LineSink)
      → IsTidy capacity refused s
      → IsTidy capacity (refused ++ refusal succeeds line) (write_line succeeds line s)
  write_line-IsTidy true line s t =
      subst (λ lines. IsTidy capacity lines (write_line true line s)) (sym (append-nil refused))
        (record {
          running = t.running;
          bounded = t.bounded;
          heard = t.heard;
          failed_said = t.failed_said;
          warned = t.warned;
        })
  write_line-IsTidy false line s t = record {
    running = t.running;
    bounded = t.bounded;
    heard = t.heard;
    failed_said = sym (any_refused-last refused line);
    warned =
        let said = t.warned in
        let flagged = t.failed_said in
        rw (any_refused-last refused line) (elim (Bool-cases s.failed) [
          | inl e ↦ rw e (
              let some_line = sym flagged ∙ e in
              let one : s.warnings ≡ 1 = rw some_line at said in one)
          | inr e ↦ rw e (
              let no_line = sym flagged ∙ e in
              let none_yet : s.warnings ≡ 0 = rw no_line at said in ap suc none_yet)
        ]);
  }

  report_lost-IsTidy :
      (succeeds : Bool) (ts_ms lost : ℕ) (next : Received) (s : LineSink)
      → IsTidy capacity refused s
      → IsTidy capacity
          (refused ++ missed succeeds ts_ms (reporting lost next))
          (report_lost succeeds ts_ms lost s)
  report_lost-IsTidy succeeds ts_ms zero next s t = nothing-IsTidy s t
  report_lost-IsTidy succeeds ts_ms (suc lost) next s t =
      write_line-IsTidy succeeds (drop_line (suc lost) ts_ms) s t

  report_lost-connected :
      (succeeds : Bool) (ts_ms lost : ℕ) (s : LineSink)
      → (report_lost succeeds ts_ms lost s).connected ≡ s.connected
  report_lost-connected succeeds ts_ms zero s = refl
  report_lost-connected true ts_ms (suc lost) s = refl
  report_lost-connected false ts_ms (suc lost) s = refl

  shorter :
      (queue : List RequestEvent)
      → length queue ≤ capacity
      → length (after_receive queue) ≤ capacity
  shorter [] h = h
  shorter (e ∷ queue) h = omega arith

  drain_from-IsTidy :
      (succeeds : Bool) (ts_ms : ℕ) (p : Phase) (s : LineSink)
      → s.phase ≡ p
      → IsTidy capacity refused s
      → IsTidy capacity (refused ++ missed succeeds ts_ms p) (drain_from succeeds ts_ms p s)
  drain_from-IsTidy succeeds ts_ms waiting s e t = nothing-IsTidy _ (record {
    running = λ c. rw c (received-goes_on s.queue);
    bounded = shorter s.queue t.bounded;
    heard = t.heard;
    failed_said = t.failed_said;
    warned = t.warned;
  })
  drain_from-IsTidy succeeds ts_ms (woke next) s e t = nothing-IsTidy _ (record {
    running = λ c. (rw e at (t.running c));
    bounded = t.bounded;
    heard = t.heard;
    failed_said = t.failed_said;
    warned = t.warned;
  })
  drain_from-IsTidy succeeds ts_ms (reporting lost next) s e t =
      IsTidy-phase capacity (refused ++ missed succeeds ts_ms (reporting lost next)) (writing next)
        _ (report_lost-IsTidy succeeds ts_ms lost next s t)
        (λ c. (rw e at (t.running (sym (report_lost-connected succeeds ts_ms lost s) ∙ c))))
  drain_from-IsTidy succeeds ts_ms (writing (event x)) s e t =
      IsTidy-phase capacity (refused ++ refusal succeeds (request_line x)) waiting _
        (write_line-IsTidy succeeds (request_line x) s t) (λ c. refl)
  drain_from-IsTidy succeeds ts_ms (writing timeout) s e t =
      nothing-IsTidy _ (IsTidy-phase capacity refused waiting s t (λ c. refl))
  drain_from-IsTidy succeeds ts_ms (writing disconnected) s e t =
      nothing-IsTidy _ (IsTidy-phase capacity refused gone s t (λ c. (rw e at (t.running c))))
  drain_from-IsTidy succeeds ts_ms gone s e t = nothing-IsTidy s t

  record_event-enqueue :
      (e : RequestEvent) (s : LineSink)
      → IsTidy capacity refused s
      → s.connected ≡ true
      → record_event capacity e s ≡ enqueue capacity e s
  unfolding record_event
  record_event-enqueue e s t c = try_send-runs capacity s.phase e s (t.running c)

Keeps-length :
    {offered kept : List RequestEvent} {lost : ℕ} → Keeps offered kept lost → lost ≤ length offered
Keeps-length nothing = omega arith
Keeps-length (keeps e k) = let before = Keeps-length k in omega arith
Keeps-length (loses e k) = let before = Keeps-length k in omega arith

enqueue-Keeps :
    (capacity : ℕ) (refused : List Line) (offered : List RequestEvent) (e : RequestEvent)
    (s : LineSink)
    → length offered < 2 ^ 64 - 1
    → Keeps offered (accounted s) (losses s + missing refused)
    → Keeps
        (offered ++ (e ∷ []))
        (accounted (enqueue capacity e s))
        (losses (enqueue capacity e s) + missing refused)
enqueue-Keeps capacity refused offered e s few k =
    elim (Bool-cases (ltb (length s.queue) capacity)) [
      | inl room ↦ rw room (
          subst (λ es. Keeps (offered ++ (e ∷ [])) es (losses s + missing refused))
            (append_assoc (requests s.stream) (held s.phase ++ s.queue) (e ∷ [])
              ∙ ap (λ es. requests s.stream ++ es) (append_assoc (held s.phase) s.queue (e ∷ [])))
            (Keeps-kept_last k e))
      | inr full ↦ rw full (
          subst (λ n. Keeps (offered ++ (e ∷ [])) (accounted s) n)
            (let bound = Keeps-length k in omega arith) (Keeps-lost_last k e))
    ]

module _ (capacity : ℕ) where
  -- Whatever happens to a sink, its queue is within its capacity, and the thread is there as long as a
  -- request may record, so none finds it gone. Until the first write of a line fails nothing is said on
  -- stderr; from then on it has been told once, and it is told of nothing else.
  pub Reaches-IsTidy :
      {offered : List RequestEvent} {refused : List Line} {s : LineSink}
      → Reaches capacity offered refused s
      → IsTidy capacity refused s
  unfolding drain
  Reaches-IsTidy spawned = record {
    running = λ c. refl;
    bounded = omega arith;
    heard = refl;
    failed_said = refl;
    warned = refl;
  }
  Reaches-IsTidy (records {refused = lines} {s = s} r c e) =
      let t = Reaches-IsTidy r in
      subst (IsTidy capacity lines) (sym (record_event-enqueue capacity lines e s t c))
        (enqueue-IsTidy capacity lines e s t)
  Reaches-IsTidy (drains {refused = lines} {s = s} r succeeds ts_ms) =
      drain_from-IsTidy capacity lines succeeds ts_ms s.phase s refl (Reaches-IsTidy r)
  Reaches-IsTidy (hangs_up r) =
      let t = Reaches-IsTidy r in
      record {
        running = λ c. cc;
        bounded = t.bounded;
        heard = t.heard;
        failed_said = t.failed_said;
        warned = t.warned;
      }

  -- As long as fewer than 2 ^ 64 events are offered, those whose line the writer took, the one in the
  -- thread's hand and those in the queue are, in this order, the events that were offered, but for as
  -- many as this: the drops that a line in the stream counts, those that the next such line will count,
  -- and what the lines that failed held, an event each or their count.
  pub Reaches-Keeps :
      {offered : List RequestEvent} {refused : List Line} {s : LineSink}
      → Reaches capacity offered refused s
      → length offered ≤ u64_max
      → Keeps offered (accounted s) (losses s + missing refused)
  unfolding drain
  Reaches-Keeps spawned few = nothing
  Reaches-Keeps (records {offered = os} {refused = lines} {s = s} r c e) few =
      let longer = length-append_one os e in
      subst (λ after. Keeps (os ++ (e ∷ [])) (accounted after) (losses after + missing lines))
        (sym (record_event-enqueue capacity lines e s (Reaches-IsTidy r) c))
        (enqueue-Keeps capacity lines os e s (omega arith) (Reaches-Keeps r (omega arith)))
  Reaches-Keeps (drains {offered = os} {refused = lines} {s = s} r succeeds ts_ms) few =
      drain_from-Keeps ts_ms s os lines succeeds s.phase refl (Reaches-Keeps r few)
  Reaches-Keeps (hangs_up r) few = Reaches-Keeps r few

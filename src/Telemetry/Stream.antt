-- ===== src/Telemetry/Stream.antt =====
-- What becomes of the events that a line sink is offered, for `LineSink` of obolus/src/telemetry.rs.
use obolus.Prelude.{
  ℕ, zero, suc, ◌+◌, ◌≡◌, refl, ap, Bool, true, false, List, [], ◌∷◌, ◌++◌, length, subst, sym,
  arith,
}
use mathlib.Core.List.{append-nil, append_assoc}
use obolus.Telemetry.{RequestEvent}
use obolus.Telemetry.Sink.{
  Line, request_line, drop_line, Received, event, timeout, disconnected, Phase, waiting, woke,
  reporting, writing, gone, LineSink, try_send, received, after_receive, enqueue, drain_from,
  missed,
}

-- `kept` holds the events of `offered` in their order, but for as many as `lost` says.
pub data Keeps
    : (offered : List RequestEvent) → (kept : List RequestEvent) → (lost : ℕ) → Type 0 where
  nothing : Keeps [] [] 0
  keeps :
      {offered kept : List RequestEvent} {lost : ℕ}
      → (e : RequestEvent) → Keeps offered kept lost
      → Keeps (e ∷ offered) (e ∷ kept) lost
  loses :
      {offered kept : List RequestEvent} {lost : ℕ}
      → (e : RequestEvent) → Keeps offered kept lost
      → Keeps (e ∷ offered) kept (suc lost)

pub Keeps-kept_last :
    {offered kept : List RequestEvent} {lost : ℕ}
    → Keeps offered kept lost
    → (e : RequestEvent) → Keeps (offered ++ (e ∷ [])) (kept ++ (e ∷ [])) lost
Keeps-kept_last nothing e = keeps e nothing
Keeps-kept_last (keeps x k) e = keeps x (Keeps-kept_last k e)
Keeps-kept_last (loses x k) e = loses x (Keeps-kept_last k e)

pub Keeps-lost_last :
    {offered kept : List RequestEvent} {lost : ℕ}
    → Keeps offered kept lost
    → (e : RequestEvent) → Keeps (offered ++ (e ∷ [])) kept (suc lost)
Keeps-lost_last nothing e = loses e nothing
Keeps-lost_last (keeps x k) e = keeps x (Keeps-lost_last k e)
Keeps-lost_last (loses x k) e = loses x (Keeps-lost_last k e)

-- An event that was kept is lost after all.
dropping :
    {offered kept : List RequestEvent} {lost : ℕ}
    → Keeps offered kept lost
    → (es : List RequestEvent) (e : RequestEvent) (rest : List RequestEvent)
    → kept ≡ es ++ (e ∷ rest)
    → Keeps offered (es ++ rest) (suc lost)
dropping nothing [] e rest h = cc
dropping nothing (y ∷ es) e rest h = cc
dropping (keeps {offered = os} {kept = ks} {lost = n} x k) [] e rest h =
    let same : ks ≡ rest = cc in subst (λ kept. Keeps (x ∷ os) kept (suc n)) same (loses x k)
dropping (keeps {offered = os} {lost = n} x k) (y ∷ es) e rest h =
    let head : x ≡ y = cc in
    subst (λ z. Keeps (x ∷ os) (z ∷ (es ++ rest)) (suc n)) head (keeps x (dropping k es e rest cc))
dropping (loses x k) es e rest h = loses x (dropping k es e rest h)

pub Keeps-dropping :
    {offered : List RequestEvent} {lost : ℕ} (es : List RequestEvent) (e : RequestEvent)
    (rest : List RequestEvent)
    → Keeps offered (es ++ (e ∷ rest)) lost
    → Keeps offered (es ++ rest) (suc lost)
Keeps-dropping es e rest k = dropping k es e rest refl

abbrev pub requests : List Line → List RequestEvent
requests [] = []
requests (request_line e ∷ lines) = e ∷ requests lines
requests (drop_line count ts_ms ∷ lines) = requests lines

abbrev pub reported : List Line → ℕ
reported [] = 0
reported (request_line e ∷ lines) = reported lines
reported (drop_line count ts_ms ∷ lines) = count + reported lines

abbrev pub held_of : Received → List RequestEvent
held_of (event e) = e ∷ []
held_of _ = []

abbrev pub held : Phase → List RequestEvent
held (woke next) = held_of next
held (reporting lost next) = held_of next
held (writing next) = held_of next
held _ = []

abbrev pub unreported : Phase → ℕ
unreported (reporting lost next) = lost
unreported _ = 0

-- The events that have a line, then the one in the thread's hand, then those in the queue.
abbrev pub accounted : LineSink → List RequestEvent
accounted s = requests s.stream ++ (held s.phase ++ s.queue)

-- The drops that have a line, and those that will have one.
abbrev pub losses : LineSink → ℕ
losses s = reported s.stream + (unreported s.phase + s.dropped_count)

-- The events that the lines that failed held, or counted.
abbrev pub missing : List Line → ℕ
missing refused = length (requests refused) + reported refused

pub missing-append : (xs ys : List Line) → missing (xs ++ ys) ≡ missing xs + missing ys
missing-append [] ys = omega arith
missing-append (request_line e ∷ xs) ys = let rest = missing-append xs ys in omega arith
missing-append (drop_line n t ∷ xs) ys = let rest = missing-append xs ys in omega arith

requests-append :
    (lines : List Line) (line : Line)
    → requests (lines ++ (line ∷ [])) ≡ requests lines ++ requests (line ∷ [])
requests-append [] line = refl
requests-append (request_line e ∷ lines) line = ap (λ es. e ∷ es) (requests-append lines line)
requests-append (drop_line n t ∷ lines) line = requests-append lines line

reported-append :
    (lines : List Line) (line : Line)
    → reported (lines ++ (line ∷ [])) ≡ reported lines + reported (line ∷ [])
reported-append [] line = omega arith
reported-append (request_line e ∷ lines) line = reported-append lines line
reported-append (drop_line n t ∷ lines) line = let rest = reported-append lines line in omega arith

received-keeps :
    (connected : Bool) (queue : List RequestEvent)
    → held_of (received connected queue) ++ after_receive queue ≡ queue
received-keeps connected (e ∷ queue) = refl
received-keeps true [] = refl
received-keeps false [] = refl

module _ (ts_ms : ℕ) (s : LineSink) (offered : List RequestEvent) (refused : List Line) where
  -- What is known of a sink, and what a step to `after` is to show.
  abbrev Known : Type 0
  Known = Keeps offered (accounted s) (losses s + missing refused)

  abbrev Shown : (succeeds : Bool) → Phase → Type 0
  Shown succeeds p =
      Keeps offered (accounted (drain_from succeeds ts_ms p s))
        (losses (drain_from succeeds ts_ms p s) + missing (refused ++ missed succeeds ts_ms p))

  -- A step that moves events and counts, and the lines that failed in it.
  moved :
      (succeeds : Bool) (p : Phase)
      → accounted (drain_from succeeds ts_ms p s) ≡ accounted s
      → losses (drain_from succeeds ts_ms p s) + missing (missed succeeds ts_ms p) ≡ losses s
      → Known
      → Shown succeeds p
  moved succeeds p same count k =
      let parts = missing-append refused (missed succeeds ts_ms p) in
      let after = drain_from succeeds ts_ms p s in
      subst (λ n. Keeps offered (accounted after) n) (omega arith)
        (subst (λ es. Keeps offered es (losses s + missing refused)) (sym same) k)

  reporting-Shown :
      (succeeds : Bool) (lost : ℕ) (next : Received)
      → s.phase ≡ reporting lost next
      → Known
      → Shown succeeds (reporting lost next)
  reporting-Shown succeeds zero next e =
      moved succeeds (reporting zero next) (rw e refl) (rw e (omega arith))
  reporting-Shown false (suc lost) next e =
      moved false (reporting (suc lost) next) (rw e refl) (rw e (omega arith))
  reporting-Shown true (suc lost) next e =
      moved true (reporting (suc lost) next)
        (rw
          (requests-append s.stream (drop_line (suc lost) ts_ms), append-nil (requests s.stream), e)
          refl)
        (let one = reported-append s.stream (drop_line (suc lost) ts_ms) in rw e (omega arith))

  writing-Shown :
      (succeeds : Bool) (x : RequestEvent)
      → s.phase ≡ writing (event x)
      → Known
      → Shown succeeds (writing (event x))
  writing-Shown true x e k =
      moved true (writing (event x))
        (rw (requests-append s.stream (request_line x), e)
          (append_assoc (requests s.stream) (x ∷ []) s.queue))
        (let one = reported-append s.stream (request_line x) in rw e (omega arith)) k
  writing-Shown false x e k =
      let parts = missing-append refused (request_line x ∷ []) in
      let held_by : Keeps offered (requests s.stream ++ (x ∷ s.queue))
          (reported s.stream + (0 + s.dropped_count) + missing refused) =
        (rw e at k) in
      subst (λ n. Keeps offered (requests s.stream ++ s.queue) n) (omega arith)
        (Keeps-dropping (requests s.stream) x s.queue held_by)

  pub drain_from-Keeps : (succeeds : Bool) (p : Phase) → s.phase ≡ p → Known → Shown succeeds p
  drain_from-Keeps succeeds waiting e =
      moved succeeds waiting
        (rw e (ap (λ q. requests s.stream ++ q) (received-keeps s.connected s.queue)))
        (rw e (omega arith))
  drain_from-Keeps succeeds (woke next) e =
      moved succeeds (woke next) (rw e refl) (rw e (omega arith))
  drain_from-Keeps succeeds (reporting lost next) e = reporting-Shown succeeds lost next e
  drain_from-Keeps succeeds (writing (event x)) e = writing-Shown succeeds x e
  drain_from-Keeps succeeds (writing timeout) e =
      moved succeeds (writing timeout) (rw e refl) (rw e (omega arith))
  drain_from-Keeps succeeds (writing disconnected) e =
      moved succeeds (writing disconnected) (rw e refl) (rw e (omega arith))
  drain_from-Keeps succeeds gone e = moved succeeds gone refl (omega arith)

-- Whether the thread will wait for another event.
abbrev pub goes_on : Received → Bool
goes_on disconnected = false
goes_on _ = true

abbrev pub runs : Phase → Bool
runs (woke next) = goes_on next
runs (reporting lost next) = goes_on next
runs (writing next) = goes_on next
runs waiting = true
runs gone = false

pub try_send-runs :
    (capacity : ℕ) (p : Phase) (e : RequestEvent) (s : LineSink)
    → runs p ≡ true
    → try_send capacity p e s ≡ enqueue capacity e s
try_send-runs capacity waiting e s h = refl
try_send-runs capacity (woke next) e s h = refl
try_send-runs capacity (reporting lost next) e s h = refl
try_send-runs capacity (writing next) e s h = refl
try_send-runs capacity gone e s h = cc

pub received-goes_on : (queue : List RequestEvent) → goes_on (received true queue) ≡ true
received-goes_on [] = refl
received-goes_on (e ∷ queue) = refl

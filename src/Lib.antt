-- ===== src/Lib.antt =====
-- Obolus, an x402 gateway that sells inference: what a request goes through from its arrival to its
-- event, and what the gateway is built from.
--
-- A request arrives at `serve` (obolus/src/gateway.rs). Its body is read into a shape
-- (obolus/src/request.rs), which names a model; the registry (obolus/src/backends.rs) routes it to an
-- upstream; a token that the token path honours (obolus/src/access.rs) is served at once; any other
-- request is held to the output cap, priced (obolus/src/pricing.rs) and handed to `paid_completion`.
-- There the payment header is decoded and matched with the offers (obolus/src/x402.rs,
-- obolus/src/x402/v2.rs), verified by the facilitator (obolus/src/facilitator.rs), the upstream is
-- called, and the payment is settled. The event (obolus/src/telemetry.rs) says what was charged. The
-- options that a gateway offers have passed the arming guard (obolus/src/arming.rs). What the operator
-- sets is read by obolus/src/config.rs; `main` (obolus/src/main.rs) builds all of these from it, or
-- refuses to start. The development seller (devseller/src/main.rs) puts the same gateway before a
-- facilitator that settles nothing and checks signatures itself (eip3009/src/lib.rs).
--
-- The files, and the code that each models:
--   Prelude    shared names and lemmas: lists and texts over native numbers, results, orders
--   Fixtures   concrete data for the tests
--   Amount     `validate_atomic_amount` (obolus/src/x402.rs), with the standard library's parser and
--              printer of a `u128`
--   Json       `serde_json::Value` with ordered maps
--   Payment    the wire types, `is_accepted_by` and `PaymentPayload::new` (obolus/src/x402/v2.rs);
--              Payment/Transfer the transfer methods, Payment/Codec the payment header
--   Request    `RequestShape::parse` (obolus/src/request.rs): Request/Reader what the JSON reader
--              delivers, Request/Keys the keys, Request/Pass the pass and its fallbacks
--   Backends   the registry and its routing (obolus/src/backends.rs): Backends/Rates the rate tables,
--              Backends/Registry the rules of a registry, Backends/Build its loading
--   Pricing    the price determiners (obolus/src/pricing.rs)
--   Facilitator what `verify` and `settle` make of an answer (obolus/src/facilitator.rs);
--              Facilitator/Delegated the delegated facilitator and its round trip
--   Telemetry  `Trace`, `RequestEvent` and `Trace::finish` (obolus/src/telemetry.rs);
--              Telemetry/Sink `LineSink`, the queue of events and the thread that writes them
--   Access     `bearer_token`; Access/KeySet `with_keys` and `verify` of a set of keys,
--              Access/KeyFiles `parse_token_keys` (obolus/src/access.rs)
--   Arming     `parse_arming`, `check_arming` and the diagnosis (obolus/src/arming.rs);
--              Arming/Escapes how operator text is shown
--   Gateway    `Gateway::new`, `priced`, `output_cap_refusal` and the answers (obolus/src/gateway.rs);
--              Gateway/Paid `paid_completion`, Gateway/Serve `serve`, Gateway/Steps how a request runs
--   Config     the payment options, for both of their forms (obolus/src/config.rs); Config/Pricing the
--              rate and the cross-checks of the backends, Config/Window the promotion, the telemetry
--              sink and the output cap
--   Boot       `main` up to the built `Access` (obolus/src/main.rs): Boot/Sources the facilitator, the
--              backends and the options, Boot/Tokens the token path, Boot/Start the start in its order
--   Eip3009    what a wallet signs and who signed it (eip3009/src/lib.rs, eip3009/src/eip712.rs,
--              eip3009/src/eip3009.rs)
--   Devseller  the development seller's verification (devseller/src/verify.rs): its payloads;
--              Devseller/Verify the checks, Devseller/Modes its settings (devseller/src/config.rs),
--              Devseller/Facilitator `DevFacilitator` (devseller/src/facilitator.rs), Devseller/Sources
--              and Devseller/Start its `main` up to a seller that is ready (devseller/src/main.rs)
-- The modules below these hold proofs, and Tests concrete inputs.
--
-- A handler is a flow that stops at each call to the facilitator or the upstream. `run` answers the
-- calls from an environment, any functions at all, and takes a patience: the number of waits after
-- which the client goes away, when the handler is dropped at the call it waits for. No request waits
-- more than three times. The recursion on patience is the only fuel; loops over lists, texts and
-- fields are structural, and `to_decimal` recurses on the order of the numbers. Time is in
-- nanoseconds from a request's arrival. A `u128` is a number up to `u128_max`, with the saturating,
-- checked and truncating arithmetic written out; a `u64` likewise.
--
-- Parameters, which are other people's code: the base64 engines, the JSON reader and writer, the
-- derived readers of options and entries, the environment, the file reader, the clock, the reader of
-- a socket address, the check of an HTTP header value, the decoding of tokens and PEM files, keccak,
-- secp256k1 and the hex decoder, and the facilitator's and the upstreams' answers. An exchange with
-- the facilitator is what it ends in and the seconds that it took.
--
-- A line sink is a state that three things change: a request that records, a step of the writer
-- thread, which is cut where another thread may come between, and the drop of the sink. Its queue
-- holds at least one event; a line is kept as what it says.
--
-- Not modelled: the HTTP servers and clients and the timers under them; the prose of errors and
-- refusals, which stand as data; the remedies of obolus/src/arming.rs; the startup description of
-- obolus/src/access.rs; the JSON text of a telemetry line; the lines that obolus/src/main.rs and
-- devseller/src/main.rs print and the serving itself; the canned answer of devseller/src/upstream.rs;
-- and the test vectors of eip3009/src/kat.rs.
pub mod Prelude
pub mod Fixtures
pub mod Amount
pub mod Json
pub mod Payment
pub mod Request
pub mod Backends
pub mod Pricing
pub mod Facilitator
pub mod Telemetry
pub mod Access
pub mod Arming
pub mod Gateway
pub mod Config
pub mod Boot
pub mod Eip3009
pub mod Devseller

-- ===== src/Lib.antt =====
-- A gateway between clients that speak the Anthropic or the OpenAI protocol and a number of upstream
-- providers. This library models its parts as functions on explicit states, and proves what makes them
-- correct.
--
-- A request passes a gate: its token, the guardrails on what it holds, the limits of requests and
-- tokens for each minute, the budget of the client that sent it. The registry chooses targets for the
-- model that it names (a scenario, a routing rule, or the default chain) and leaves out the providers
-- whose circuit breaker is open. The server tries the targets one after the other: each provider has a
-- pool of API keys, of which one is picked for each attempt; the request is translated where the
-- provider speaks the other protocol; the outcome is reported to the breaker and to the pool. The first
-- answer is delivered, as a message or as a stream of events, in the protocol that the client speaks.
-- Responses are kept in a cache; what an answer cost is charged to the client; every request is entered
-- in a usage log. The configuration says which providers and rules there are.
--
-- Files:
--   Config (internal/config/config.go): the parsed file as records, `apply_defaults` (applyDefaults,
--     with one definition for each part of the configuration), `validate` (validate, with one
--     definition for each of its loops). Config/Defaults and Config/Validate hold the proofs.
--   Provider/Pool (internal/provider/pool.go): `Pool`, `pick` (Pick; its loop is `scan`, its second
--     loop `first_ready`), `report_hint` (ReportHint), `report`, `stats`, `key_hashes`. Below it, Scan
--     is about the loop, Pick about the choice, FillFirst about the strategy, Report about the
--     cooldowns and Bench about sequences of calls.
--   Provider/Breaker (internal/provider/provider.go): `Health` (the atomics of Provider),
--     `note_upstream` (NoteUpstream), `is_open`, `open_for_seconds`, `begin_request`, `end_request`.
--     Below it, Opening is about the deadline and Load about the count of calls in flight.
--   Provider/Registry (internal/provider/registry.go): `apply`, `swap`, the comparisons of
--     orderByStrategyLocked, `sticky_rotate`; Registry/Choice: `resolve` (Resolve), with the matches of
--     scenarios and rules, and `catalog` (Catalog). Below it, Rules is about the order of the rules,
--     Balance about load balancing, Resolving about the breakers and Listing about the catalog.
--   Provider/EventStream (internal/provider/eventstream.go): `next_frame` (nextFrame) and
--     `bedrock_body` (BedrockBody); EventStream/Reader has `read_body` (Read). EventStream/Wire is the
--     format as a sender writes it, with what its messages say; Reading, Heard and Body are about what
--     is read of it, Reader/Pieces about
--     the calls of Read.
--   Provider/Transform (internal/provider/transform.go): `parse_transforms` (ParseTransforms) and
--     `apply_transforms` (ApplyTransforms); Transform/Untouched is about the other fields.
--   Cache (internal/cache/cache.go): `Cache`, `lookup` (Get), `put_with_ttl`, `put_entry`, `flush`;
--     Cache/Semantic: `SemanticIndex`, `search`, `add_entry`, `cosine`.
--   Core/Stream (internal/core/stream.go): `Translator` (StreamTranslator) and its methods, of which
--     `chunk` (Chunk) is split by what a chunk holds; `finalize` (Finalize), `translate_stream`
--     (TranslateOpenAIStream). Stream/Monitor is the protocol as a client checks it, Blocks and Tools
--     show that each step keeps to it, Closing is about the end and Whole about a stream from start to
--     end.
--   Core/Collect (internal/core/collect.go): `Collected`, what CollectOpenAIStream keeps,
--     `collect_lines` (scanSSEData with its closure), `collect_openai`; Collect/Agrees compares it with
--     the translator. Collect/Anthropic: `take_event` (the closure of CollectAnthropicStream),
--     `collect_anthropic`.
--   Core/Synthetic (internal/core/collect.go): `synthetic_stream` (WriteSyntheticStream);
--     Synthetic/Whole and Synthetic/Retell are about what a client hears of it.
--   Core/Request (internal/core/translate_req.go, types.go and openai.go): `MessagesRequest`, a request
--     of Anthropic's, and `translate_request` (TranslateRequest), in which `messages_of` holds the loop
--     over the messages; Request/Estimate has what is read off a request (EstimateRequestTokens,
--     RequestFlatText and others), and Request/Pieces compares the messages with a description of the
--     conversation.
--   Core/Respond (internal/core/translate_resp.go and openai_outbound.go): `translate_response`
--     (TranslateResponse) and `to_openai` (AnthropicToOpenAIResponse); Respond/Calls and Respond/Again
--     are about a whole answer translated and translated back.
--   Core/Inbound (internal/core/openai_inbound.go): `to_anthropic` (ToAnthropic), with the loop over
--     the messages `read_messages`; Inbound/Back compares it with the translation back.
--   Core/Passthrough (internal/core/stream.go): `passthrough` (PassthroughAnthropicStream) with the
--     usage that it reads off the events.
--   State (internal/state/state.go): `Store`, the interface, and MemoryStore, whose `read` (get) and
--     write are steps of their own; State/Windows is about counters, State/Bytes about bytes.
--   RateLimit (internal/ratelimit/ratelimit.go): `allow` (Allow) and `allow_tokens` (AllowTokens) over
--     any store, with `allow_local` and `allow_tokens_local` for the limiter's own buckets, which
--     both share; Calls has sequences of both calls, Requests and Tokens are about what passes of
--     them without a store, and Refunds about a refused request with the store in memory.
--   LogStore (internal/logstore/logstore.go): `add_record` (Add), `add_stat` (Stat.add); LogStore/Ring
--     is about the last records and LogStore/Totals about the totals.
--   Server/InFlight (internal/server/ratelimit.go): `step`, the atomic operations of inFlight's begin,
--     end and wait; InFlight/Waking shows that a blocked wait is woken.
--   Server/Gate (internal/server/server.go and handlers.go): `check_auth` (checkAuth) and `admit`, the
--     tests of handleMessages before it chooses targets, in their order, each of which goes on with the
--     rest or refuses. Gate/Meanings says what a test asks for, and Gate/Admitted is about all of
--     them together.
--   Server/Guardrails (internal/server/guardrails.go), Server/Overrides (overrides.go) and
--     Server/FreeMode (freemode.go and wildcard.go): the policies that the gate asks.
--   Server/Budget (internal/server/budget.go): `Budgets`, with the charge and the test of a budget by
--     each period, and the tests of models; Budget/Admin has the changes by an administrator.
--     Budget/Ledger compares the test with a ledger of all charges, and Budget/Updating is about
--     changes.
--   Server/Payload (internal/server/handlers.go): `build_payload` (buildPayload), and AWSEscape of
--     internal/provider/sigv4.go; Payload/Fields is about the fields of a request that is sent on.
--   Server/Attempts (internal/server/handlers.go): the inner loop of handleMessages over the keys of
--     one provider, `attempts`, whose every round is `round`. The state that it shares with other
--     requests is the health and the pool of the provider; Balance is about the calls in flight,
--     Answering, Counting and Once about the calls that are made and their keys. `calls` of the
--     state is no variable of the program: it holds the calls of Execute and what each gave.
--   Server/Failover (internal/server/handlers.go): the outer loop, `serve`, over the targets; Bounded
--     is about the number of calls and what each ending comes from. A status that it chooses is what
--     the client sees only where the headers of a stream were not sent before.
--   Server/Delivery (internal/server/handlers.go): what the client is sent of an answer, by provider
--     and by mode; Delivery/Modes is about the streams. The body of an answer that is not read line by
--     line is what the reader with the limit of maxResponseBytes gives of it.
--   Pricing (internal/pricing/pricing.go): the table of prices, and the cost of a call.
--   Prelude: what the parts share: tests, lists and integers over the native numbers, maps as
--     association lists, text, durations, and floating point numbers as a parameter.
--   The modules called Examples run the definitions on concrete values.
--
-- Times are numbers of nanoseconds since the zero time, durations are integers of nanoseconds. The
-- clock is an argument: each call is given the time that it reads. A method that holds a lock from its
-- start to its end is one step. Ints that cannot reach their limits in practice (counters of keys,
-- durations, requests in flight) are unbounded; the count of failures of the breaker is an int32 that
-- wraps, and so does the product of the seconds of a Retry-After header (int64). Maps are association
-- lists, whose order nothing depends on. Random draws are a function from
-- their number.
--
-- The loops over lists are structural, and so is the loop over attempts, on the attempts that are left.
-- What other requests do to a provider between two steps of an attempt is an argument, `others`, a
-- function from what they find to what they leave. The sort of the rules runs one round for each rule,
-- and each round shortens the list, so that the rounds are enough. The frames and the headers of an
-- event stream are read on fuel, as much as there are bytes, of which each takes some. Newton's method
-- runs the 24 rounds of the code. `sortInts` inserts each number into the sorted part. The comparison
-- sort of the targets is the insertion sort that the standard library uses for up to 20 elements.
--
-- JSON, random identifiers, the scanner's error, the format of a time, regular expressions and the
-- matching of paths are parameters; so is what the upstream answers.
--
-- Not modelled: network and file I/O, cryptography, and discovery of models; in handleMessages the
-- lookup in the caches (an argument, `recall`) and what is put there and charged after an answer; the
-- call of the upstream with its headers; handleChatCompletions; shared state in Redis and Postgres; the
-- administration, metrics, webhooks and the MCP client; the download of prices.
pub mod Cache
pub mod Config
pub mod Core
pub mod LogStore
pub mod Prelude
pub mod Pricing
pub mod Provider
pub mod RateLimit
pub mod Server
pub mod State

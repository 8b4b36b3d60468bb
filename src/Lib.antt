-- ===== src/Lib.antt =====
-- xoa-proxy, an HTTP(S) and gunzip bridge for XAPI's `VM.import`: a verification library.
--
-- The program. A client asks `GET /image.xva?src=<url>`. The handler (src/handler.rs) checks `src`,
-- chooses one of the two HTTP clients of the shared state (src/state.rs), finds the image's format by
-- the URL's extension or by a HEAD request, takes the import lock, and answers with a stream
-- (src/stream.rs) that downloads the image, decompresses it if need be, and owns the lock until it is
-- dropped. Errors are turned into responses by src/error.rs. A middleware (src/lifecycle.rs) counts
-- the requests that are active until their bodies are dropped; where systemd passed the socket on,
-- the process (src/main.rs) ends when that count has been 0 for the idle delay that src/config.rs
-- reads. src/lib.rs joins the handlers to the router.
--
-- The model.
--   Prelude, Rust: shared names, and the parts of Rust's standard library that the proxy computes
--     with. A text is the list of its code points; `to_lowercase` is modelled on ASCII, which is all
--     that the proxy lowers. A `u16`, `u32` or `u64` is a number below a bound that is written out.
--   Crates: what other crates do, as a record of types and operations that every definition takes.
--     Crates.Laws holds their documented behaviour, as hypotheses of the theorems that rely on it. A
--     stream is the list of its polls; foreign values are known by what the operations answer.
--   Format, Stream: `ImageFormat`, `build_client`, `fetch_xva_stream` and `GuardedStream` of
--     src/stream.rs. `poll_next` and the closure that counts bytes are one function here.
--     Stream.Report is its `Drop`. Gib is `bytes_to_gib`, with `f64` rounded as in Rust.Float.
--   Log: the lines that src/handler.rs, src/stream.rs and src/error.rs log, a constructor for each
--     `info!`, `warn!` and `error!`; `render` is the level, the message and the fields of a line.
--   Error, Config, State: src/error.rs, src/config.rs and src/state.rs.
--   Async: `async` code as a resumption. It stops at each upstream request; what stands between two
--     of them happens at once, as on the single-threaded runtime of src/main.rs. The place where Rust
--     drops the guard of the import lock is written as `drop_guard`, and a log statement as `log`.
--   Handler: `detect_format_from_extension`, `detect_format_via_head`, `detect_format`,
--     `handle_image_xva` and `handle_not_found` of src/handler.rs. The handler's parts are functions
--     of their own: `validate_src`, `select_client`, `transfer`, `build_response`.
--   Lifecycle: `listener`, `Activity`, `ActiveRequest` and `Activity::idle` of src/lifecycle.rs. The
--     idle future is a state machine; a poll of it is three turns of its loop, which is enough for
--     every poll to come to a halt. Lifecycle.Idle.Timer is a simpler timer, as its reference.
--     A sleep is ready from its deadline on, in nanoseconds; tokio rounds it up to milliseconds.
--     Lifecycle.Body is `ActiveBody`, over any type that implements `HttpBody`.
--   Server: any number of requests under `track`, as a list of tasks. An action is an arrival, an
--     upstream answer, a poll of a body, or a drop, by which a request ends whatever it is doing.
--     Server.Phases is an abstract proxy that knows of each request its phase alone, and
--     Server.Refinement relates the two. Server.Isolation.Alone is a request by itself.
--     Server.Lines is what the server logs on each action.
--   Router: `build_router` of src/lib.rs over axum's router as a parameter, and the extractors of the
--     handlers' arguments: what an HTTP request is to the server.
--   Process: `main` of src/main.rs, and the future that ends the serving. Times are nanoseconds.
--     `wakes` is a poll of that future, by whichever branch its `select!` begins; what axum does when
--     the future panics is a parameter. Process.Reason is what a poll of the shutdown future logs. The field `since` is no part of the
--     program: it is the time of the last change of the count of active requests, and only
--     statements read it.
--   Tests: values that meet the assumptions, tests, and the theorems at concrete inputs.
--
-- Not modelled: the log subscriber, and the two lines that `main` logs before it serves; how axum
-- drains the requests under way once the shutdown future has returned, and the error that its
-- serving may end with; that axum drops the body of a HEAD response at once, and not with its
-- request; packaging, scripts and workflows.
pub mod Prelude
pub mod Rust
pub mod Crates
pub mod Gib
pub mod Format
pub mod Log
pub mod Error
pub mod Config
pub mod Async
pub mod State
pub mod Stream
pub mod Handler
pub mod Lifecycle
pub mod Server
pub mod Router
pub mod Process
pub mod Tests

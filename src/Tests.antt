-- ===== src/Tests.antt =====
-- Values that meet the assumptions about other crates, tests of the definitions on them, and the
-- theorems at concrete inputs.
mod Decoder
mod Example
mod Units
mod Lifetimes
mod Values
mod Streams
mod Handling
mod Serving
mod Interleaving
mod Probing
mod Logging
mod Running
mod Routing

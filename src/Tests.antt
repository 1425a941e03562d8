-- ===== src/Tests.antt =====
-- Runs of the definitions at concrete values, and the theorems at concrete inputs.
mod Values
mod Framing
mod Negotiating
mod Protocols
mod Metadata
mod Dispatching
mod Details
mod Calling
mod Exchanging
mod Requesting
mod Streaming
mod Urls

-- ===== src/Tests.antt =====
-- A small msgpack library and a small JSON library that meet the stated assumptions, and each theorem
-- with hypotheses applied at an input that meets them.
mod Codec
mod Parsing
mod Library
mod Values
mod Calls
mod Endpoints
mod Sources
mod Receivers
mod Callings
mod Filters
mod Hubs
mod Remote
mod Sketches
mod Benches
mod Commands
mod Lifecycles

-- ===== src/Pollen.antt =====
-- jquery.hive.pollen.js: the library that a worker has.
mod Arrays
mod Unique
mod Trimmed
mod Combined
mod Values
mod Evaluate
mod Lists
mod Strings
mod Ajax
mod Query
mod Slices
mod Distinct
mod Compacted
mod Requests
mod Worker
mod Relay
mod Tests

-- ===== src/Examples.antt =====
-- The theorems at small inputs, and runs of the definitions.
mod Books
mod Lists
mod Caches
mod Channels
mod Queries
mod Serving
mod Messages
mod Selects
mod Reading
mod Sending

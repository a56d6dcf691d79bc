-- ===== src/Tests.antt =====
-- The theorems at concrete inputs: two corpora, a search through both, and the queries for them.
mod Searches
mod Configurations
mod Requests
mod Server
mod Serving
mod Settings
mod Versions
mod Responses
mod Program

-- ===== src/Tests.antt =====
-- Concrete inputs for the theorems: small datasets, requests, blocks and pools.
mod Coding
mod Indexing
mod Requests
mod Files
mod Sections
mod Writes
mod Spaces
mod Orders
mod Transfers
mod Reads
mod Sessions

-- ===== src/Tests.antt =====
-- Runs at fixed inputs, and the theorems at concrete inputs.
mod Jobs
mod Documents
mod Sources
mod Chunks
mod Stores
mod Access
mod Members
mod Workers
mod Uploads
mod Requests
mod Questions
mod Texts
mod Scans

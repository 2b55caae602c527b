-- ===== src/Examples.antt =====
-- The theorems at concrete inputs.
mod Values
mod Running
mod Records
mod Inputs
mod Rollback
mod Checkouts
mod Success
mod Fullstack
mod Deploy
mod Database
mod Attachments
mod Names
mod Refinement

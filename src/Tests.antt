-- ===== src/Tests.antt =====
-- Runs of the model on a small tracker, and the theorems at work on it.
mod Data
mod Sessions
mod Tables
mod Requests
mod Frames
mod Grants
mod Client
mod Commands
mod Saved

-- ===== src/Runs.antt =====
-- The theorems at concrete inputs.
mod Wire
mod Net
mod Choice
mod Response
mod Nested
mod Api
mod Cache
mod Best

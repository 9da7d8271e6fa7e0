-- ===== src/Tests.antt =====
-- Runs of the model at concrete inputs: each shows that the hypotheses of a theorem can hold.
mod Data
mod Credits
mod Commands
mod Provider
mod Once
mod Interviews
mod Cvs
mod Workers
mod Uploads

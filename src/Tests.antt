-- ===== src/Tests.antt =====
-- Concrete runs of the model, and each result applied to one of them.
mod World
mod Economy
mod Blocks
mod Codecs
mod Pool
mod Genesis
mod Mining
mod Machine
mod Tries
mod Ballots
mod Strays
mod Audits
mod Milestones
mod Validators
mod Caching
mod Signing

-- ===== src/Examples.antt =====
-- Runs of the modelled code on small inputs: tests, and for each result that has hypotheses an
-- input that meets them.
mod Hands
mod Rules
mod Chains
mod Wire
mod Setups
mod Syncs
mod Seeds
mod Library
mod Envelopes
mod Bodies
mod Lobbies
mod Formed

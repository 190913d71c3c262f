-- ===== src/Tests.antt =====
-- Runs of the code on small states, and the theorems applied to them.
mod Decimals
mod Sample
mod Ledger
mod Governance
mod Transactions
mod Bridges
mod Upgrades
mod Merkle
mod Bytes
mod Contract
mod Blocks
mod Pool

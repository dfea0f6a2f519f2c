-- ===== src/Tests.antt =====
-- The development's theorems on concrete inputs.
mod History
mod HistoryPage
mod Export
mod Library
mod Toast
mod BulkSelect
mod Embed
mod Settings
mod Engine
mod Pages
mod SudoSession
mod Collections
mod Batch
mod Keys
mod Matches
mod HomePage
mod Shares
mod Webhooks

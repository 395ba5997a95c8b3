-- ===== src/Tests.antt =====
-- The models run on small documents.
mod Sample
mod Editing
mod Mapping
mod Patching
mod Maps
mod Identities
mod Proposals
mod Discards
mod Places
mod Uris
mod Budgets

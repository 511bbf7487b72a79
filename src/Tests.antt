-- ===== src/Tests.antt =====
-- Sample worlds, and the theorems at concrete inputs.
mod Samples
mod Answers
mod Sessions
mod Connections
mod SampleFiles
mod Mailboxes
mod Servers
mod Databases
mod Threads
mod Listings
mod Startup
mod UniqueIds
mod Passwords
mod Sharing
mod Unchanged
mod Delivery

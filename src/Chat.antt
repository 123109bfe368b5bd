-- ===== src/Chat.antt =====
-- The chat of the dwr application: the service, the adapter that pushes to pages, and the page.
mod Adapter
mod Server
mod Page
mod Users
mod History
mod Delivery
mod Roster
mod Clicks
mod Transcript
mod Reach
mod Tests

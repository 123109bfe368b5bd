-- ===== src/Comet.antt =====
-- The Comet support of the atmosphere application: messages pushed to suspended requests, and received.
mod Mapper
mod Adapter
mod Requests
mod Broadcaster
mod Queue
mod Batches
mod Replies
mod Delivery
mod Posts
mod Tests

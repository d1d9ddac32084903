-- ===== src/Bot.antt =====
-- internal/bot: the dispatcher.
pub mod Services
pub mod Encoding
pub mod World
pub mod Thumbnails
pub mod Fetch
pub mod Upload
pub mod Jobs
pub mod Consumers
pub mod Finalization
pub mod Messages
pub mod Updates
pub mod Running
pub mod Pipeline
pub mod Dispatcher

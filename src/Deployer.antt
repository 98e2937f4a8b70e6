-- ===== src/Deployer.antt =====
-- StragetyDeployer: a manager program and the service that stores what it deploys.
pub mod Cmd
pub mod Err
pub mod Protocol
pub mod Manager
pub mod Service
pub mod Lifecycle
pub mod Delivery
pub mod Serving
pub mod Sessions
pub mod Isolation
pub mod Filters
pub mod Login
pub mod KeepAlive
pub mod Refusals
pub mod Replies
pub mod Pool
pub mod Requests
pub mod Answering
pub mod Tests
pub mod AnswerTests
pub mod Database
pub mod Undisturbed

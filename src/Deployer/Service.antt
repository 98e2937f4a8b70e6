-- ===== src/Deployer/Service.antt =====
-- StragetyDeployer/DispatcherService.h and DispatcherService.cpp: the server's side. What it
-- receives is the list of a message's frames, what it sends and submits to its threads is a result.
mod State
mod Frames
mod Commands
mod Poll
mod Answers
unfoldable pub use State.*
unfoldable pub use Frames.*
unfoldable pub use Commands.*
unfoldable pub use Poll.*
unfoldable pub use Answers.*

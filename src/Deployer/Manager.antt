-- ===== src/Deployer/Manager.antt =====
-- StragetyDeployer/DispatcherManager.h and DispatcherManager.cpp: the client's side. The socket and
-- its monitor are the operations' arguments and results: what is sent through `InProcSocket` is a
-- list, `m_bTcpConnected` a field, and a frame that fails an `assert` is `none`.
mod State
mod Requests
mod Receive
pub use State.*
unfoldable pub use Requests.*
unfoldable pub use Receive.*

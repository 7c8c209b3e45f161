-- ===== src/Tcp.antt =====
-- tcp/: the events of a channel, and connections.
pub mod Channel
pub mod Selector
pub mod Connection
pub mod Timer
pub mod EventLoop
pub mod LoopPool
pub mod EventLoopThread
pub mod Acceptor
pub mod Server
mod Tests

-- ===== src/Net.antt =====
-- The network layer: include/net and src/net.
pub mod Buffer
pub mod TcpConnection
pub mod EventLoop
pub mod InetAddress
pub mod LoopThread
pub mod TcpServer
pub mod TimerQueue
pub mod Channel
pub mod Poller
mod Tests

-- ===== src/Net.antt =====
-- _include/hao_socket.h and app/net: the worker process's connections, from accepting to recycling.
pub mod State
pub mod Pool
pub mod Close
pub mod Flood
pub mod Receive
pub mod Epoll
pub mod Send
pub mod Events
pub mod Timers
pub mod Listen
pub mod EpollLoop
pub mod Settings
pub mod Accept
pub mod EpollInit

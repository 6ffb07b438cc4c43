-- ===== src/Tests.antt =====
-- Example states, and the theorems applied to them.
mod Fixtures
mod Receive
mod Pool
mod Flood
mod Close
mod Crc
mod Send
mod Logic
mod Accept
mod Buffer
mod Timer
mod Config
mod Log
mod ThreadPool
mod HeartBeat
mod Address
mod Signal
mod Proc
mod Listen
mod EpollLoop
mod EpollInit

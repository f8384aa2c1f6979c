-- ===== src/BlockFeed.antt =====
-- The block feed of the untrusted host: include/DecentEthereum/Untrusted/HostBlockService.hpp,
-- HostBlockServiceTasks.hpp, and `StartSendingBlocks` of src/Untrusted/Main.cpp.
pub mod Service
pub mod Tasks
pub mod Pushing
pub mod Chain
pub mod Ticks
pub mod Status
pub mod Range

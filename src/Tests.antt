-- ===== src/Tests.antt =====
-- Runs of the model on small inputs.
mod Keeper
mod Tracker
mod Pieces
mod Codec
mod Session
mod System
mod Udp
mod Bencoding
mod Files
mod Writers
mod Load
mod Trackers

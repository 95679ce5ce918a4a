-- ===== src/Wire.antt =====
-- The protobuf encoding of the .pb.go files of x/bps/types: varints, the skipping of unknown fields,
-- and the messages.
pub mod Error
pub mod Varint
pub mod Skip
pub mod Message
pub mod Params
pub mod Tx
pub mod Query
pub mod Module
pub mod Genesis
pub mod Ends
pub mod Forward
mod Runs

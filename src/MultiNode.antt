-- ===== src/MultiNode.antt =====
-- cmd/bpsd/cmd/testnet_multi_node.go: the command that writes the files of a testnet of several nodes.
pub mod Sdk
pub mod Files
pub mod Args
pub mod Nodes
pub mod Genesis
pub mod Testnet
pub mod Ports
pub mod Removal
pub mod Copies
pub mod Supply
pub mod Commas
pub mod Peers
mod Runs

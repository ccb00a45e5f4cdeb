-- ===== src/AutoScaling.antt =====
-- pkg/dc2/dispatcher_autoscaling.go: Auto Scaling groups. The parts of the file are in the children.
pub mod Names
pub mod Groups
pub mod Stored
pub mod Create
pub mod Scaling
pub mod Resize
pub mod Template
pub mod Tags
pub mod Handlers
pub mod Pool
pub mod WarmJobs
pub mod Members
pub mod InOrder
pub mod Calls

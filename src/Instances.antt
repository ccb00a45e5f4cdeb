-- ===== src/Instances.antt =====
-- pkg/dc2/dispatcher_instance.go: Lifecycle has the delays of a test profile around the calls of the
-- executor, Handlers what stops, starts and terminates instances, Reclaim what a spot reclaim does,
-- Launch what RunInstances does.
pub mod Lifecycle
pub mod Handlers
pub mod Reclaim
pub mod Describe
pub mod Launch

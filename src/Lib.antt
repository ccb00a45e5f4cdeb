-- ===== src/Lib.antt =====
-- dc2, an EC2 emulator on Docker (pkg/dc2): a model of its core and the theorems that hold of it.
--
-- A request reaches the Dispatcher (dispatcher.go), which keeps every resource and its attributes,
-- tags included, in a Storage (storage/memory.go), starts and stops instances through an executor,
-- and tells the instance metadata service (imds.go) of tags, of spot notices and of whether an
-- instance may ask. A test profile (testprofile/profile.go) adds delays and spot reclaims to what
-- the handlers do; spot launches (dispatcher_spot.go) combine it with the options of the
-- dispatcher.
--
-- The files and what they model:
-- - Prelude: names of the libraries passed on, Boolean tests, lists by native numbers (Lists),
--   Go's int64 (Int), strings (Text, with what TrimSpace leaves in Text/Trim), splitting and
--   joining by commas (Commas), path/filepath.Match (Glob), strconv with its round trip (Strconv),
--   and sorting by a text key (Sorting).
-- - Api: pkg/dc2/api/error.go, the errors as values, and results. Api/Exec: handlers that change a
--   state and may fail; what was written before an error stays.
-- - Storage: pkg/dc2/storage. A Go map is an association list, memoryStorage a record with its
--   map. RegisterResource is register_resource, and so on for each method. Maps has the laws of
--   the lists, Invariant the well-formedness, View and Calls the contract and the refinement,
--   Changes what one write does to what is read, Listing what is read back.
-- - Dispatcher: pkg/dc2/dispatcher.go. Paging is applyNextToken, Tags is CreateTags, DeleteTags
--   and syncIMDSTagsForResources, Filters is applyFilters, Finding what findResource answers;
--   their children hold the proofs.
-- - Imds: pkg/dc2/imds.go. The sync.Maps are association lists in one record. Http has the
--   handlers, Tokens and Access the proofs; Access has the events that reach the controller and
--   the states they lead to.
-- - TestProfile: pkg/dc2/testprofile/profile.go, with Delays and Reclaims.
-- - Spot: pkg/dc2/dispatcher_spot.go. Options, Requests, Describe and Plan follow the parts of
--   that file. Schedule has the jobs that scheduleSpotReclaim starts: a job is a goroutine with
--   its phase, Step is what can happen next, a call, a move of a job or time that passes, and
--   Reachable what follows from it; Cancels and Moves say what a call and a move do, Registry and
--   Live which jobs the map of cancel functions knows, Shown and Notices who set a notice, Times
--   and Punctual when a job reclaims, Ends how it ends.
-- - LaunchTemplate: pkg/dc2/dispatcher_launch_template.go, pkg/dc2/launch_template_linkage.go and
--   the part of pkg/dc2/block_device_mappings.go they call, from the request data on. Names has
--   the attribute names, Load what is read from the storage, Find is findLaunchTemplate with the
--   tags that link an instance to its template, Handlers the handlers that write, Metadata,
--   Versions, Handlers/Defaults with Defaults/Bounds and Handlers/Numbers the proofs.
-- - Executor: pkg/dc2/executor/executor.go, the interface to containers and volumes as a record of
--   functions on a state of its own, and World, the state of the Dispatcher that handlers change
--   through it. Loops and Keeps have the lemmas about loops of handlers and about what no course
--   of a handler leaves.
-- - Volumes: pkg/dc2/dispatcher_volume.go, with Data for requests and attributes and Lifecycle for
--   pkg/dc2/dispatcher_volume_lifecycle.go. Cleanup has the proof about the volumes that go with
--   an instance.
-- - Instances: pkg/dc2/dispatcher_instance.go. Lifecycle has the delays of a profile around the
--   executor's calls, Handlers stopping, starting, terminating and the metadata options, Describe
--   what is answered and Describe/Filters which instances are, Launch is RunInstances with Request
--   for what is known before an instance is created; Reclaim is reclaimSpotInstance of
--   pkg/dc2/dispatcher_spot.go. Lifecycle/Keeps, Handlers/Reset, Launch/Limits, Launch/Undo,
--   Launch/Rollback and Describe/Filters/Agreement hold proofs.
-- - AutoScaling: pkg/dc2/dispatcher_autoscaling.go. Groups has the data of a group and its checks,
--   Stored what is loaded and saved with the round trip in its children, Template the launch
--   template and the instance type of a group, Tags its tags, Members which instances it has and
--   how they end, Create how it gets new ones, Scaling how many instances it and its warm pool are
--   to have and how instances go from one to the other, Resize how they get to their sizes,
--   Handlers the requests that change groups, Pool those for warm pools, WarmJobs the jobs that
--   delete a warm pool in the background as a step relation. InOrder is the storage with the sizes
--   of its groups in order, the children named Keeps show part by part that nothing in these
--   requests leads out of it, and Calls puts the requests into sequences. Scaling/Capacity,
--   Resize/Fit, Stored/Sizes, Handlers/Sizes, WarmJobs/Tracked and WarmJobs/Reached hold proofs.
-- - Examples: the theorems at concrete inputs.
--
-- Names are the source's in snake case: SetResourceAttributes is set_resource_attributes. A
-- pointer or a nil slice is an option where the code tells nil apart, an int is an integer of
-- unbounded size whose wrap-around is written out where a sum can leave the range (wrap64), and a
-- panic is an error of its own.
--
-- Loops are structural recursion. The one recursion on fuel is the client that follows paging
-- tokens; one more request than there are elements is proved to be enough.
--
-- Parameters stand for what is outside: the executor with its clock and its waits; the random
-- token and the random ids, for a loop a list of answers; the container that Docker reports for an
-- address; which texts are RFC 3339 times and which prices strconv.ParseFloat refuses; Go's net,
-- crypto, base64 and time functions as a record; the JSON texts of lists, requirements, policies
-- and mappings as records of codecs; the instance type that the search of the catalog finds for
-- requirements.
--
-- A delay waits with the dispatcher's lock given up; the model takes the profile not to change and
-- no other handler to run meanwhile. The loop over the map of tags by group goes over its list.
--
-- Not modelled: the texts of error messages, names of resource types as texts, case mapping beyond
-- ASCII, the Docker executor, HTTP and XML, reflection over request structs, YAML and the syntax
-- of JSON, goroutines and locks but for the jobs of spot reclaims and of warm pools. Of Auto
-- Scaling the describe handlers, LaunchInstances and the reaction to Docker events are missing,
-- and so are the describe handlers of launch templates. Security groups, fleets, instance types,
-- subnets, profile patches and what shutdown does to resources are not part of the model.
mod Prelude
pub mod Api
pub mod Storage
pub mod Imds
pub mod Dispatcher
pub mod TestProfile
pub mod Spot
pub mod LaunchTemplate
pub mod Executor
pub mod Volumes
pub mod Instances
pub mod AutoScaling
mod Examples

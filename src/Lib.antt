-- ===== src/Lib.antt =====
-- garden-linux: a container server for Linux. A linux_backend creates containers out of the
-- resources that its resource pool hands out (uids, host ports, subnets with their addresses,
-- bridges and root file systems), keeps them in a container repository, and takes them back
-- when a container is destroyed. The development models the allocators, which carry the state
-- that containers share, a container itself, and the backend with its repository.
--
-- Parts and files:
--   Common     shared types, tests on numbers and texts, association lists (Go's maps), and
--              `Outcome` (a result, an error, or a panic).
--   PortPool   port_pool/port_pool.go and the record of port_pool/state.go.
--   Names      the container ids of resource_pool/resource_pool.go (`generateContainerIDs`) and
--              network/bridgemgr/bridge_name_generator.go.
--   Subnets    network/subnets: Address for ip_util.go and the addresses of subnets.go,
--              Selectors for selectors.go, Errors for errors.go, Pool for subnets.go.
--   Bridges    network/bridgemgr/mgr.go. It takes its names from Names, and its networks and
--              gateway addresses from Subnets.
--   ResourcePool  resource_pool/resource_pool.go over the three pools: the module itself for the
--              network specification and a container's share of the pools, Creation and
--              Acquiring for `Acquire`, Teardown for `Release`, Pruning for `Setup` and `Prune`,
--              Snapshots for `Restore` with the records of linux_container/snapshot.go and
--              linux_backend/resources.go.
--   Environment   process/env.go.
--   Rlimits       container_daemon/rlimits_manager.go, and `setRLimitsEnv` of
--              linux_container/running.go; Words for its entries, RoundTrip for the line.
--   Container     linux_container/linux_container.go: its state and start and stop; Mappings for
--              `NetIn` and `NetOut`, Properties for the properties, Limiting for limits.go,
--              Processes for running.go and the ids of processes, Snapshots for `Snapshot`,
--              `Restore` and `Info`, Metrics for metrics.go. Calls is any sequence of its
--              methods; Lifecycle, Held, Limited, Usage, Restored and Resumed say what they do
--              to it and to the port pool.
--   ProcessTracker  process_tracker/process_tracker.go; Linked for the goroutines that wait for
--              the ends of processes.
--   Repository    container_repository/in_memory_container_repository.go.
--   Backend       linux_backend/linux_backend.go over the repository: `Create`, `Destroy` and the
--              queries; Restoring for `Start` and `Stop`, Bulk for `BulkInfo` and `BulkMetrics`.
--              Traced keeps a record of its calls of `Acquire` and `Release`; Created, Destroyed
--              and Overtaken (calls that overlap) are about that record, Size about the number
--              of containers.
--   Firewall   network/iptables/iptables.go: Rules for the arguments of iptables, Chain for the
--              operations, with network/filter.go; Deciding, Packets and Verdicts for what
--              `NetOut` does to packets, Documented for the options of iptables as they are
--              documented, Flags for the rules that are added and deleted by name.
--              linux_container/iptables_manager: Instances for the chains of a container and their
--              manager, Undoing for the manager.
--   Configure  network/configure.go and the errors of network/errors.go (Texts); Steps for a
--              run that succeeds, Semantics for what the devices do, Configured for the network in
--              the end.
--   Yarn       YarnBackend.go: Nide for its container, Server for the backend; Handles and Bulk
--              for `BulkInfo`, Linux for `BulkInfo` over Backend, Transparent for the calls that it
--              hands on, Process for its container.
--
-- How the code is read:
--   * A method that holds its lock is one step, and it takes the old state to the new one and a
--     result; `Run` of the process tracker, which has three sections, is one step too. Logging is
--     left out.
--   * An IPv4 address is a number below 2 ^ 32, a network a base and a number of mask bits; IPv6
--     is not modelled. uint32 sums in the port pool wrap around.
--   * A Go map is an association list, where a missing key reads as Go's zero value.
--   * Builder and Lister (the bridge devices of the kernel) are the functions of a record, on any
--     state of the devices.
--   * What the resource pool calls (the files of the depot, iptables, create.sh, destroy.sh, root
--     file systems, filters, `net.ParseCIDR`, `semver.Make`, the decoded snapshot) is a parameter,
--     over any state of the host. The filter, which `Acquire` sets up at the same time as the
--     rest, is set up first.
--   * What a container calls (the command runner, iptables, cgroups, quotas, bandwidth, the watcher
--     for a lack of memory, the process tracker) is the record `Host`, over any state of the host;
--     what the backend calls through its interfaces, and the file system, is the record
--     `Services`, where a container is a reference and its state is part of the world.
--   * The packet filter takes the command runner as a parameter, and so a rule of iptables is the
--     list of its arguments; what iptables does with it is a hypothesis of the theorems about
--     packets. The network configuration takes the devices as the record `Devices`, and
--     `YarnBackend` the backend that it wraps as the record `RealBackend`.
--   * The containers of the nide manager are a store with pointers into it, since a client keeps
--     the pointer that `Create` returned.
--   * Process ids are uint32 and wrap around. Limits are uint64, written and read as decimals.
--   * `Create` is two steps where calls overlap: its tests, and the rest.
--   * The counters of the generators start at the time in nanoseconds and do not reach 2 ^ 63.
--   * Loops over slices are structural recursion. The two loops over addresses run on fuel, which
--     is one more than the size of the network: a round for each address and one that ends it,
--     which is enough, since each round moves on to the next address or block.
--
-- Not modelled: the layers of a root file system, the streams of a container (`StreamIn`,
-- `StreamOut`, `Attach`), a process itself (its daemon, streams and signals),
-- what only calls the kernel or other programs (netlink, cgroups, quotas, mounts, namespaces,
-- shell scripts), the helper binaries in C, and logging.
mod Common
pub mod PortPool
pub mod Names
pub mod Subnets
pub mod Bridges
pub mod ResourcePool
pub mod Repository
pub mod Environment
pub mod Container
pub mod ProcessTracker
pub mod Backend
pub mod Rlimits
pub mod Firewall
pub mod Yarn
pub mod Configure

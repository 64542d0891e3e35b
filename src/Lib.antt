-- ===== src/Lib.antt =====
-- A verification library for acadock-monitoring, the web service that reports the CPU, memory, IO
-- and network use of the containers of a Docker host.
--
-- The program's parts. Readers parse files under /proc (procfs/). A reader of control groups
-- (cgroup/) takes the statistics of a container from containerd's cgroups library, for either
-- version, and looks up devices and mount points in a reader of mount infos. The CPU monitor
-- (cpu/) runs a goroutine for the machine and one for each container; it is told of containers by
-- the events of a repository (docker/), and keeps the last two samples of each. A filter
-- (filters/) smooths the number of running processes. The getters of resources/ and the handlers
-- of webserver/ put these together and reply with the values of client/, which is also the client
-- of the service. config/ reads the settings from the environment, and main builds the rest from
-- them.
--
-- Which file models which part; a folder of the same name holds the proofs and the test runs.
--   Prelude, Text, Float   what Go and its standard library give: words, maps, errors, strconv,
--                          strings, bufio lines, fmt.Sscanf, time.ParseDuration, float64
--   Procfs/CpuStat         procfs/cpu_stat.go: readOneCPULine, Read, All, Sum
--   Procfs/MemInfo         procfs/meminfo.go: Read (its lines are parse_line), FillStruct
--   Procfs/LoadAvg         procfs/loadavg.go: Read, and the Read of the wrapper (read_running)
--   Procfs/Readers         procfs/: the readers as structs, and procfs/utils.go
--   Procfs/MountInfo       procfs/mountinfo.go: NewMountInfoReader (open_mount_info_reader), Start,
--                          Refresh and what it calls, Mountpoint, DevicePath
--   Cgroup/Metrics         the statistics of the cgroups library, and Stats of cgroup/stats.go
--   Cgroup/BlkIo           cgroup/stats.go: cgroupV1IOUsage, updateCgroupV1Device
--   Cgroup/Manager         cgroup/manager.go: NewManager, Pids
--   Cgroup/Stats           cgroup/stats.go: GetStats and what it calls
--   Cpu                    cpu/cpu.go: the samples, GetHostUsage, GetContainerUsage
--   Cpu/Acts               cpu/cpu.go: runs of the ticks and the ends of all containers
--   Cpu/Workers            cpu/cpu.go: Start, monitorHostUsage, monitorContainerCPU
--   Filters                filters/exponential_smoothing.go
--   Docker/Containers      docker/client.go, docker/list.go
--   Docker/Repository      docker/container_repository.go: StartListeningToNewContainers and
--                          RegisterToContainersStream, as steps on channels
--   Docker/Listener        docker/container_repository.go: listenToDockerEvents
--   Net                    net/net.go: the ticks, the events and GetUsage
--   Net/Iface              net/iface.go
--   Resources              resources/resources.go
--   Webserver              webserver/host.go, webserver/containers.go, webserver/controller.go
--   Client/Types           client/client.go: the values that are reported
--   Client/Requests        client/client.go: the options and the requests
--   Config                 config/env.go: init, CgroupPath
--   Main                   cmd/acadock-monitoring/main.go: main up to the server (start), the check
--                          of the credentials, the table of the routes
--   Main/Running           the goroutines that main starts, side by side, and the controller that
--                          answers while they run
--   Main/Serving           from a request to its reply: the routes, the handlers, the statuses
--   Main/Calls             the calls of client/client.go, and the connection to the service
--   Main/EndToEnd          the client of client/client.go and the service together
--
-- How state and operations correspond. A struct is a record with the fields of the code, and a
-- method that changes it is a function to the new record. A function that returns an error returns
-- an Outcome: a value, an error or a panic; an error is the tree of the calls that wrapped it.
-- What a mutex protects is one step, so the goroutines are sequences of such steps: Cpu/Workers
-- has them as a relation, in which each goroutine may take its next step at any time, and so has
-- Main/Running for those of the whole service. The
-- repository of Docker/Repository holds its mutex for as long as it has channels to send an event
-- to, so there each send is a step, and the mutex is part of the state; what a CPU monitor takes
-- out of its channel is what Cpu/Workers/Registry has it handle. A Go map is
-- an association list in which each key occurs once. A number of 64 bits is a natural number whose
-- operations wrap around at 2 ^ 64; a signed one, and a duration, is its bit pattern. An instant
-- is a number of nanoseconds with no bound.
--
-- Bounds. Two functions recurse on fuel. format_uint has 20 digits, which is as many as a number
-- below 2 ^ 64 has; the proofs about it have that hypothesis. The loop of ParseDuration has the
-- length of the text, and each of its rounds takes a byte: Text/Duration/Fuel shows that it never
-- runs out, and that more fuel changes nothing. All else recurses on its data.
--
-- What is a parameter: the files and what opening them returns, ClockTick, the cgroups library,
-- Docker's client, netlink and the output of the ip command, the HTTP client with its decoder and
-- the authorization that it sends, also from the user that a URL names, the
-- router with its middlewares and the JSON encoder, what the fraction of a duration adds, the clock,
-- and float64 (a record of a type with its operations, of which the proofs assume at most that a
-- conversion from an integer keeps the sign). Where a proof needs a library to do what it documents,
-- this is a named hypothesis, and a test run shows a library that satisfies it.
--
-- What is not modelled: logging, and what the libraries reply with on their own (the router to a path
-- with no route, the middlewares to an error, a panic or wrong credentials); the profiling handlers of
-- main; the end of the goroutines on shutdown, and that of the whole service on a panic of one of them;
-- the real time between two ticks; and the generated mocks.
mod Prelude
mod Text
mod Float
pub mod Procfs
pub mod Cgroup
pub mod Client
pub mod Docker
pub mod Cpu
pub mod Filters
pub mod Resources
pub mod Webserver
pub mod Net
pub mod Config
pub mod Main

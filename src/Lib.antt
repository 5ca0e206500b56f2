-- ===== src/Lib.antt =====
-- Carina, local storage for Kubernetes. A controller and a scheduler plugin choose the node and
-- the device group of a volume and record the choice in a LogicVolume; a daemon on the node
-- reconciles the LogicVolume with the volume groups and raw disks of the node.
--
-- The parts, and how they correspond to the code:
--
--   Errors - error values (plain errors, gRPC statuses, panics), results and their do blocks.
--   Api - the custom resources of api/v1 and api/v1beta1, and the device types of api/api.go.
--   Config - pkg/configuration/config.go, pkg/csidriver/driver/util/util.go and the plugin's
--     copy in scheduler/configuration/config.go. The decoded configuration is an argument (`List
--     DiskSelectorItem`, the strategy). Validate is the function of that name.
--   Locks - utils/mutx/idlocker.go. Exclusion runs threads in any interleaving.
--   Plugin - Filter of scheduler/schedulerplugin/localstorage/storage-plugins.go. Requests is
--     getPvcRequestMap, Allocatable is getAllocatableMap with the readers of k8s.go, Fit is
--     minimumValueMinus. Requests.Claims reads the claims of a pod independently of that map,
--     Counting and Kept compare the two.
--   Placement - pkg/csidriver/driver/k8s/node_service.go and getter/retry_getter.go. Candidates
--     holds the loop bodies and the choice, Select the three selections, Capacity the two
--     queries.
--   Volume - pkg/devicemanager/volume/volume.go over the driver interfaces lvmd.Lvm2 and
--     bcache.Bcache. An operation is a function of the lock table and of a world that the drivers
--     act on (`locked`); a report reads the world, a command may change it. Volumes, Disks,
--     Reports and Bcaches hold the operations.
--   Reconciler - controllers/logicvolume_controller.go with UntilMaxRetry, SliceRemoveString
--     and PartitionName of utils/utils.go. The managers and the API server are the record `Env`
--     of operations over a world. Retry is the loop, Statuses what is written, Steps the
--     branches.
--   Service - pkg/csidriver/driver/k8s/logicvolume_service.go. The clients are the record
--     `Client` over a world, which `pass` lets other agents change during a wait. Poll is the
--     loop that waits; Getter, Create, Delete and Expand hold the operations.
--   Csi - pkg/csidriver/driver/controller.go. Request reads a request, Create, Bcache, Expand
--     and Queries hold the calls; Ends carries what a call can end with through its steps.
--   Lvm - pkg/devicemanager/lvmd: Report is parse.go, Driver is lvm.go as an instance of the
--     interface Lvm2 over an executor of commands (utils/exec/exec.go). Layout says how the
--     commands print, with the indentation of lvm; the executor trims its output.
--   Partition - pkg/devicemanager/partition/partition.go over the library disko. Create, Update
--     and Delete hold the operations, Devices the list of block devices.
--   Rebuild - controllers/node_controller.go: which volumes are moved off a lost node, and
--     Claims, which replaces their claims.
--   Runner - generateStatus of runners/nodestorageresource.go: the capacities that a node
--     publishes.
--   Base - numbers, texts, maps and sorting as Go has them.
--
-- Interaction: the plugin and the controller read the allocatable groups of a node's
-- NodeStorageResource, which the node fills in from GetCurrentVgStruct; the reconciler calls
-- the volume manager, tries three times, and writes the outcome into the status that the
-- controller waits for. The CSI controller selects a node with Placement, writes the
-- LogicVolume with Service and waits; the node's volume manager works with the LVM driver, and
-- the runner publishes what is left. Runner.Admission joins what is published to what the
-- volume manager asks for.
--
-- Conventions. int64 is ℤ with the wrap-around written out (`to_int64`), uint64 is ℕ with `% 2
-- ^ 64` (`sub_u64`, `add_u64`). A Go map is an association list: its iteration order is the
-- order of the list, and since the statements hold for any list they hold for any order. What
-- comes from Kubernetes (listers, clients, label selectors, quantities) is a field of a record
-- that the definitions take. sort.Slice is a stable insertion sort; the statements do not
-- depend on the order of equal elements. strings.ToLower is that of ASCII. Logging, events and
-- sleeping are left out; of a context only the end is kept. All loops are structural
-- recursions; UntilMaxRetry recurses on the number of tries, and a loop that waits recurses on
-- the number of waits after which its context is done, which stands for the deadline that every
-- call of the controller has. A directory name, a label or a device name is ASCII, so that
-- bytes and characters agree. The Go panics of a nil dereference, a nil map and an index out of
-- range are errors of their own.
--
-- Not modelled: the scoring of the plugin (floating point), the bcache and host path drivers
-- (they only run commands), the CSI node service, file systems and I/O limits (mounts and
-- system calls), the device check, the pod controller, the metrics and start-up code. The
-- reports of the executor are taken to leave the world as it is, and LVDisplay, whose error the
-- volume manager drops, is taken not to panic.
pub mod Api
pub mod Base
pub mod Config
pub mod Csi
pub mod Errors
pub mod Locks
pub mod Lvm
pub mod Partition
pub mod Placement
pub mod Plugin
pub mod Rebuild
pub mod Reconciler
pub mod Runner
pub mod Service
pub mod Volume

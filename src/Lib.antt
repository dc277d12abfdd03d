-- ===== src/Lib.antt =====
-- pmu-min-suite samples the performance counters of selected processes from kernel modules. The hook
-- module follows context switches, forks and exits, by tracepoints or by return probes, and calls
-- callbacks; the tracker keeps which tasks are followed, with a pointer for each; the client module
-- programs the counters and, at each overflow interrupt, writes a sample into a circular list.
--
-- Tracker: the answer of query_tracker and query_data_tracker, in three variants of which one is
-- linked. Contract states what the variants promise as a record of operations and laws, and Wrappers
-- (ptracker.c) takes such a tracker as an argument.
--   Stack (ptracker_stack.c): one word at the end of the kernel stack; words of 64 bits are numbers
--     below 2 ^ 64, and Stack/Words does the bit operations as arithmetic.
--   Hash (ptracker_hash.c): buckets of nodes and a counter of 32 bits under a lock; its child Smp has
--     the same calls on any number of agents, processors or interrupts on them, as a step relation: each
--     taking and releasing of the lock, each work under it, and each access to a node outside it is one
--     step, the nodes in memory are known by their addresses, and a log has the calls whose work is done.
--   Perf (ptracker_perf.c): an event of the kernel for each task.
--   Default (ptracker.c): the functions that are linked where no variant is.
--   Stack/Map, Hash/Map and Perf/Map fill the contract; Sample is a system of tasks for concrete inputs.
-- Hook: the switches, the callbacks and the usage counter (system_hook.c, hooks.h).
--   Registry (hooks.c): the list of hooks and the search for their tracepoints.
--   Loop: the loops that register a table and take it back, shared by the two variants.
--   Tracep and Kprobe (system_hook_tracep.c, system_hook_kprobe.c): loading and unloading.
--   Handlers: the functions at the tracepoints and probes.
--   Dispatch: from an event at a tracepoint through the handler and the callback to the wrappers of
--     ptracker.c, with the module loaded over some tracker.
--   Gate: handlers and the exit function as a step relation over any number of processors, each
--     test and each change of the usage counter one step.
--   Default (system_hook.c): the registrations that are linked where no other are.
-- Clist: the circular lists (client/clist/); the buffer is a list of bytes, and a copy that leaves it
-- gives `none`. Contract is the interface of client/clist/clist.h as a record of operations and laws,
-- which the buffers take as an argument; Carray (client/clist/carray.c), Nbblist
-- (client/clist/nbboundedlist.c) and Default (client/clist/clist.c) are made instances of it.
-- Client: the settings and the registers (client/pmu.c, client/pmu_low.h) in Pmu, the parameters
-- (client/params.c) in Params, the interrupt handler (client/pmi.c) in Pmi, the vector and the loading
-- of the unit (client/pmi.c, client/pmu.c) in Vector, and loading and unloading the module
-- (client/client_module.c, client/device/proc.c) in Loading.
--   Buffering (client/buffering/bcpu.c) with Samples, the samples on all processors; its children
--     Bthread (client/buffering/bthread.c), a list for each task; Bsystem
--     (client/buffering/bsystem.c), one list for all, as a step relation over any number of
--     processors; and Default (client/buffering/buffering.c).
--   Attach and Switch: the callbacks of client/client_module.c for a task that is tracked, and at a
--     switch between tasks; Attach/Forks puts the first two under the hooks of ptracker.c.
--   Processes (client/device/proc_processes.c): the write of a pid, over any tracker and any list.
--   Sampling: the module at work (client/pmi.c, client/client_module.c, ptracker.c), in which interrupts
--     on the processors, writes of pids, forks and exits follow each other in any order, each as one step.
-- Breader: the module with the buffer that three files show (breader/breader_module.c): Raw
-- (breader/breader_raw.c), Seq (breader/breader_seq.c) and Mmap (breader/breader_mmap.c).
-- Tools: the programs that read these files: Reader (tools/reader.c), Mmapr (tools/mmapr.c), Stdio
-- (tools/rawr.c and tools/seqr.c) and Mreader (tools/mreader.c); and Wrapper (tools/wrapper.c), which
-- registers itself with the client module and becomes another program.
-- Prelude: numbers, tests, the `int` results, families, bits, byte buffers and references.
--
-- The kernel is a parameter everywhere: memory allocation, tracepoints, probes, perf events, parsers
-- and the vector of an interrupt are arguments, with their documented behaviour as named hypotheses
-- where a theorem needs it. State is passed on explicitly, `none` is behaviour that C does not define,
-- and errors are negated numbers in a ℤ over the native ℕ. The loops of the modules are structural
-- recursion. The loops over the files of the buffer reader run on fuel, since their end depends on
-- what a read returns: one unit for each round, and one more than the buffer has bytes or entries
-- is enough where each round but the last goes on by at least one of them.
--
-- Not modelled: log output; a virtual machine without counters (CONFIG_RUNNING_ON_VM) and a kernel
-- without fast interrupts; the saturation of `refcount_t`; an interrupt in the middle of a hook or of a
-- write of a pid, which are one step each in Sampling; a removal of the perf tracker that is interrupted;
-- a read of the bounded list while another processor writes; the flags of a mapped area.
pub mod Prelude
pub mod Tracker
pub mod Hook
pub mod Clist
pub mod Client
pub mod Breader
pub mod Tools

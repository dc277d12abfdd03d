-- ===== src/Client/LoadingTests.antt =====
-- Loading and unloading the client module on concrete inputs.
use pmu_min_suite.Prelude.{◌≡◌, refl, true, false, none, some, ℤ, pos, is_err}
use pmu_min_suite.Hook.{Shook, call, loaded}
use pmu_min_suite.Client.Loading.{
  ClientHooks, ProcApi, Client, init_shook, init_proc, client_module_init,
}
use pmu_min_suite.Client.Loading.WayBack.{
  IsLeft, loading, unloading, client_module_exit-client_module_init,
}
use pmu_min_suite.Client.Pmu
use pmu_min_suite.Client.Pmu.{
  Settings, Registers, PmiVector, nmi, irq, lvt_entry, get_machine_configuration, fixed_ctrl_loop,
  enable_pmcs_global, init_pmu_local, init_fixed, pmc_trim, fixed_pmcs_to_bits_mask,
}
use pmu_min_suite.Client.Vector
use pmu_min_suite.Client.Vector.{VectorApi, init_pmu, fini_pmu}
use pmu_min_suite.Client.Buffering
use pmu_min_suite.Client.Buffering.{Bcpu, alloc, buffering_static_init, buffering_static_fini}
use pmu_min_suite.Client.Tests.{pmu, api, no_clists, clist_of}

-- The hook module in use before the client comes, with the wrappers of a tracker as its callbacks.
abbrev tracking : Shook
tracking = record loaded {
  shook_enabled = true;
  system_wide_mode = true;
  shook_initialized = true;
  hook_sched_in = call 11;
  hook_proc_fork = call 12;
  hook_proc_exit = call 13;
}

abbrev client : Client Bcpu
client = record {
  buffers = no_clists;
  shook = tracking;
  pmu = pmu;
  proc = record { root_pd_dir = none; dir_exists = false };
}

abbrev client_hooks : ClientHooks
client_hooks = record {
  client_hook_on_attach = 1;
  client_hook_on_detach = 2;
  client_hook_sched_in = 3;
}

-- The root directory is made, and the file below it is not.
abbrev no_file : ProcApi
no_file = record { proc_mkdir = some 64; proc_create = none }

abbrev both_made : ProcApi
both_made = record { proc_mkdir = some 64; proc_create = some 128 }

abbrev init_buffers : Bcpu → Bcpu × ℤ
init_buffers = buffering_static_init clist_of 88 4

abbrev fini_buffers : Bcpu → Bcpu
fini_buffers = buffering_static_fini 4

-- A positive number is returned after the way back.
loading-no_file :
    (loading init_buffers fini_buffers client_hooks (λ s. s) api no_file client).1 ≡ pos 1
unfolding client_module_init init_shook init_proc init_pmu Pmu.pmu_global_init Vector.pmi_init
    buffering_static_init Buffering.fill
loading-no_file = refl

loading-both_made :
    is_err (loading init_buffers fini_buffers client_hooks (λ s. s) api both_made client).1 ≡ false
unfolding client_module_init init_shook init_proc init_pmu Pmu.pmu_global_init Vector.pmi_init
    buffering_static_init Buffering.fill
loading-both_made = refl

-- The client and the program, with the file below the directory or without.
abbrev load : ProcApi → Client Bcpu × ℤ
load proc_api = loading init_buffers fini_buffers client_hooks (λ s. s) api proc_api client

abbrev unload : Client Bcpu
unload = unloading init_buffers fini_buffers client_hooks (λ s. s) api both_made (load both_made).0

client_module_exit-client_module_init_example :
    IsLeft tracking unload.shook
    × ((unload.pmu.cpus 1).global_ctrl ≡ 0)
    × (unload.proc.dir_exists ≡ false)
    × (unload.buffers ≡ fini_buffers (init_buffers no_clists).0)
client_module_exit-client_module_init_example =
    client_module_exit-client_module_init init_buffers fini_buffers client_hooks (λ s. s) api
      both_made client 1 refl loading-both_made

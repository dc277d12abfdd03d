-- ===== src/Client/SystemTests.antt =====
-- Runs of client/buffering/bsystem.c with two processors.
use pmu_min_suite.Prelude.{ℕ, ◌≤◌, ◌<◌, ◌⊎◌, ◌≡◌, refl, true, some, pos, arith}
use pmu_min_suite.Prelude.Family.{update, update_self}
use pmu_min_suite.Client.Buffering.Bsystem.{
  Pc, WriteStep, FiniStep, written, write_clist, refcount_dec, idle, checked, counted, waiting,
  left, finished, System, see_present, see_removing, refcount_inc, remove, leave, fini_clist,
  writer, fini, Reach, here, later, unloaded, buffering_static_init,
}
use pmu_min_suite.Client.Buffering.Bsystem.Safety.{steps_left, loaded, leave-safe}
use pmu_min_suite.Client.Buffering.Bsystem.Draining.{write_steps, buffering_static_fini_lem}

-- What loading gives when init_clist gives the address 4096.
loaded_lem : buffering_static_init (λ count size. some 4096) 88 unloaded ≡ (loaded 4096, pos 0)
unfolding buffering_static_init
loaded_lem = refl

abbrev emptied : System
emptied = record (loaded 4096) { removing = true; fini_pc = waiting }

remove_steps : Reach 2 (loaded 4096) emptied
remove_steps = later here (fini remove)

-- Unloading leaves its loop, a processor sees that the module goes, and then the clist is freed.
abbrev out_of_loop : System
out_of_loop = record emptied { fini_pc = left }

abbrev freed : System
freed = record emptied { freed = true; fini_pc = finished; pc = update emptied.pc 1 idle }

free_steps : Reach 2 out_of_loop freed
free_steps = later (later here (writer 1 (omega arith) refl (see_removing refl))) (fini fini_clist)

leave-safe_example : freed.pc 1 ≡ idle
leave-safe_example =
    leave-safe {s' = emptied} remove_steps refl (leave (omega arith)) (λ i lt e. cc) free_steps 1
      (omega arith)

-- The first processor is about to write when unloading begins.
abbrev busy : System
busy = record (loaded 4096) {
  usage = 2;
  removing = true;
  fini_pc = waiting;
  pc = update (update (loaded 4096).pc 0 checked) 0 counted;
}

busy_steps : Reach 2 (loaded 4096) busy
busy_steps =
    later
      (later (later here (writer 0 (omega arith) refl (see_present refl)))
        (writer 0 (omega arith) (update_self (loaded 4096).pc 0 checked) refcount_inc))
      (fini remove)

-- It writes, and is done.
abbrev done : System
done = record busy { usage = 1; pc = update (update busy.pc 0 written) 0 idle }

done_steps : Reach 2 busy done
done_steps =
    later (later here (writer 0 (omega arith) refl write_clist))
      (writer 0 (omega arith) refl refcount_dec)

buffering_static_fini_lem_example :
    (write_steps done_steps ≤ 6)
    × (((done.usage ≤ 1) × FiniStep done waiting done left)
        ⊎ ((i : ℕ) × (i < 2)
            × ((u : System) × (q : Pc) × WriteStep done (done.pc i) u q
                × (steps_left q < steps_left (done.pc i)))))
buffering_static_fini_lem_example = buffering_static_fini_lem busy_steps (λ e. cc) done_steps

-- ===== src/Client/Attach/Lifetime.antt =====
-- The clist of a task in client/client_module.c, from the start of its tracking to the end.
use pmu_min_suite.Prelude.{
  ℕ, ◌*◌, ◌<◌, ◌≡◌, ◌≢◌, refl, Bool, Option, none, some, ==_false, List, [], ◌∷◌, arith,
  Option-cases, inl, inr,
}
use pmu_min_suite.Prelude.Lists.{length, length-append}
use pmu_min_suite.Prelude.Family.{update, update_self}
use pmu_min_suite.Clist.Contract.{Clist, ReadsAll}
use pmu_min_suite.Tracker.Task.{Task}
use pmu_min_suite.Tracker.Contract.{Tracker}
use pmu_min_suite.Client.Pmi.{PmcsData, ProcData}
use pmu_min_suite.Client.Buffering.{local_buffer_size, buff_entries}
use pmu_min_suite.Client.Buffering.Heap.{Heap, write_at}
use pmu_min_suite.Client.Buffering.Bthread.{
  buffering_dynamic_init, buffering_dynamic_fini, write_sample,
}
use pmu_min_suite.Client.Attach.{
  proc_data_size, word_bytes, words_bytes, sample_of, Memory, client_hook_on_attach,
  client_hook_on_detach, register_process,
}

length-words_bytes : (ws : List ℕ) → length (words_bytes ws) ≡ 8 * length ws
length-words_bytes [] = refl
length-words_bytes (w ∷ ws) =
    omega (arith, length-append (word_bytes 8 w) (words_bytes ws), length-words_bytes ws)

pub length-sample_of :
    (d : PmcsData) → length d.fixed ≡ 3 → length d.general ≡ 8 → length (sample_of d) ≡ 88
length-sample_of d hf hg = omega (
  arith,
  length-append (words_bytes d.fixed) (words_bytes d.general),
  length-words_bytes d.fixed,
  length-words_bytes d.general,
)

module _ (T : Clist) where
  dynamic_init-some :
      (kvmalloc : ℕ → Option (List ℕ)) (address size : ℕ) (heap : Heap T) (c : T.State)
      → T.init_clist kvmalloc (buff_entries local_buffer_size size) size ≡ some c
      → buffering_dynamic_init T kvmalloc address heap size
        ≡ (update heap address (some c), address)
  unfolding buffering_dynamic_init
  dynamic_init-some kvmalloc address size heap c e = rw (e, buffering_dynamic_init) refl

  dynamic_init-none :
      (kvmalloc : ℕ → Option (List ℕ)) (address size : ℕ) (heap : Heap T)
      → T.init_clist kvmalloc (buff_entries local_buffer_size size) size ≡ none
      → buffering_dynamic_init T kvmalloc address heap size ≡ (heap, 0)
  unfolding buffering_dynamic_init
  dynamic_init-none kvmalloc address size heap e = rw (e, buffering_dynamic_init) refl

  write_at-short :
      (all : ReadsAll T) (heap : Heap T) (info : ℕ) (c : T.State) (sample : List ℕ)
      → heap info ≡ some c
      → length sample < T.reads c
      → write_at T heap info sample ≡ none
  write_at-short all heap info c sample e short = ground (arith, all.write-short c sample short)

  write_sample-short :
      (all : ReadsAll T) (heap : Heap T) (info : ℕ) (c : T.State) (sample : List ℕ)
      → info ≢ 0
      → heap info ≡ some c
      → length sample < T.reads c
      → write_sample T heap info sample ≡ none
  unfolding write_sample
  write_sample-short all heap info c sample ne e short =
      rw (==_false info 0 ne, write_at-short all heap info c sample e short) refl

  -- Freeing the address that was made gives back every clist.
  dynamic_fini-init :
      (kvmalloc : ℕ → Option (List ℕ)) (address size : ℕ) (heap : Heap T)
      → address ≢ 0
      → heap address ≡ none
      → (a : ℕ)
      → buffering_dynamic_fini T
          (buffering_dynamic_init T kvmalloc address heap size).0
          (buffering_dynamic_init T kvmalloc address heap size).1
          a
        ≡ heap a
  unfolding buffering_dynamic_fini
  dynamic_fini-init kvmalloc address size heap ne free a =
      elim (Option-cases (T.init_clist kvmalloc (buff_entries local_buffer_size size) size)) [
        | inl e ↦ rw (dynamic_init-none kvmalloc address size heap e) refl
        | inr (c, e) ↦
            rw (dynamic_init-some kvmalloc address size heap c e, ==_false address 0 ne)
              (ground (arith, free))
      ]

  detached :
      (proc : ℕ) (m : Memory T) (d : ProcData)
      → proc ≢ 0
      → m.procs proc ≡ some d
      → client_hook_on_detach T proc m
        ≡ some (record {
          clists = buffering_dynamic_fini T m.clists d.clist;
          procs = update m.procs proc none;
        })
  unfolding client_hook_on_detach
  detached proc m d ne e = rw (==_false proc 0 ne, e, client_hook_on_detach) refl

  -- If tracking a task gets its structure and its clist, of a list that reads all of the entry size
  -- that it is made for, then the first sample of the task is read beyond the end of the structure:
  -- the clist is made for the size of the structure, and the sample is a part of it.
  pub write_sample-client_hook_on_attach :
      (all : ReadsAll T) (kvmalloc : ℕ → Option (List ℕ)) (address proc : ℕ) (held : ProcData)
      (m : Memory T) (c : T.State) (d : PmcsData)
      → address ≢ 0
      → T.init_clist kvmalloc (buff_entries local_buffer_size proc_data_size) proc_data_size
        ≡ some c
      → length d.fixed ≡ 3
      → length d.general ≡ 8
      → (r : ProcData) × ((client_hook_on_attach T (some (proc, held)) kvmalloc address m).0.procs
            proc
          ≡ some r)
        × (write_sample T
              (client_hook_on_attach T (some (proc, held)) kvmalloc address m).0.clists
              r.clist
              (sample_of d)
            ≡ none)
  unfolding client_hook_on_attach
  write_sample-client_hook_on_attach all kvmalloc address proc held m c d ha hi hf hg = (
    record held { clist = (buffering_dynamic_init T kvmalloc address m.clists proc_data_size).1 },
    update_self m.procs proc _,
    rw (dynamic_init-some kvmalloc address proc_data_size m.clists c hi) (
        write_sample-short all (update m.clists address (some c)) address c (sample_of d) ha
          (update_self m.clists address (some c))
          (omega (arith, all.init-reads kvmalloc _ proc_data_size c hi, length-sample_of d hf hg))),
  )

  -- Ending the tracking of a task takes back what starting it took, whether it got a clist or not,
  -- if the addresses were free before.
  pub client_hook_on_detach-client_hook_on_attach :
      (kvmalloc : ℕ → Option (List ℕ)) (address proc : ℕ) (held : ProcData) (m : Memory T)
      → address ≢ 0
      → proc ≢ 0
      → m.clists address ≡ none
      → m.procs proc ≡ none
      → (m' : Memory T) × (client_hook_on_detach T proc
            (client_hook_on_attach T (some (proc, held)) kvmalloc address m).0
          ≡ some m')
        × ((a : ℕ) → m'.clists a ≡ m.clists a)
        × ((p : ℕ) → m'.procs p ≡ m.procs p)
  unfolding client_hook_on_attach
  client_hook_on_detach-client_hook_on_attach kvmalloc address proc held m ha hp fa fp = (
    _,
    detached proc _ _ hp (update_self m.procs proc _),
    dynamic_fini-init kvmalloc address proc_data_size m.clists ha fa,
    λ p. ground (arith, fp),
  )

  -- A task that is registered by its pid keeps as the pointer to its clist what the memory of its
  -- structure held: if this is the address of a clist of another task, ending the tracking of the one
  -- frees the clist of the other.
  client_hook_on_detach-register_process :
      (R : Tracker) (alloc : Bool) (s : R.State) (task : Task) (proc : ℕ) (held : ProcData)
      (m : Memory T)
      → proc ≢ 0
      → held.clist ≢ 0
      → (m' : Memory T) × (client_hook_on_detach T proc
            (register_process T R (some (proc, held)) alloc (s, m) task).0.1
          ≡ some m')
        × (m'.clists held.clist ≡ none)
  unfolding register_process buffering_dynamic_fini
  client_hook_on_detach-register_process R alloc s task proc held m hp hc = (
    _,
    detached proc _ held hp (update_self m.procs proc (some held)),
    rw (==_false held.clist 0 hc) (update_self m.clists held.clist none),
  )

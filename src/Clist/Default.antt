-- ===== src/Clist/Default.antt =====
-- client/clist/clist.c: the list that is linked where no other is. It keeps nothing.
use pmu_min_suite.Prelude.{ℕ, refl, Option, some, List, arith}
use pmu_min_suite.Clist.Contract.{Clist}

-- The address of the static word.
pub data Dummy : Type 0 where
  dummy : Dummy

abbrev pub init_clist : (ℕ → Option (List ℕ)) → ℕ → ℕ → Option Dummy
init_clist kvmalloc entry_count entry_size = some dummy

abbrev pub read_clist : Dummy → List ℕ → ℕ × List ℕ
read_clist c bucket = (0, bucket)

abbrev pub write_clist : Dummy → List ℕ → Option Dummy
write_clist c bucket = some c

abbrev pub default_clist : Clist
default_clist = record {
  State = Dummy;
  init_clist = init_clist;
  write_clist = write_clist;
  reads = λ c. 0;
  IsOk = λ c. Unit;
  init-IsOk = λ kvmalloc entry_count entry_size c hk hc hs hm e. (tt, omega arith);
  write-IsOk = λ c bucket ok h. (c, refl, tt, refl);
}

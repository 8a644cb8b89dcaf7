-- ===== src/Context/Tests.antt =====
-- A kernel that takes the invalidations itself, and one tid in entry mode.
use openeuler_ummu.Base.{
  Bool, ℕ, ◌≡◌, refl, arith, ◌∙◌, ap, sym, Bool-cases, inr, ◌==◌, if◌then◌else◌, true, none, some,
  inl, List, [], ◌∷◌, ◌++◌, false, einval,
}
use mathlib.Core.Option.{none-ne-some, some-injective}
use mathlib.Core.Path.{subst}
use native.Mathlib.Nat.{one-le-pow}
use openeuler_ummu.Entry.{zero_entry_node}
use openeuler_ummu.Mapt.{mapt_mode_entry}
use openeuler_ummu.Table.{zero_node}
use openeuler_ummu.Queue.Command.{Device}
use openeuler_ummu.Queue.Plbi.{
  Request, alloc_tid, put_tid, plbi_all, TidInfo, zero_tid_info, page_shift, ummu_kcmd_plbi,
}
use openeuler_ummu.Queue.Plbi.Ends.{Ready, holds}
use openeuler_ummu.TidMap.{hashmap_get}
use openeuler_ummu.Context.{entry_block, MaptInfo, CtxInfo, World}
use openeuler_ummu.Context.Create.{mapt_mem, ummu_get_tid, ummu_put_tid, ummu_mapt_create}
use openeuler_ummu.Context.Tid.{
  answered, create_tid, enter, ummu_check_input_param, ummu_allocate_tid, ummu_free_tid,
}
use openeuler_ummu.Context.Held.{has, Sound, Obeyed, without, ummu_free_tid-held}
use openeuler_ummu.Check.{ummu_check_mode}
use openeuler_ummu.Grant.Runs.{Kept, allocate, free, stay, call, Run, Run-Kept}
use openeuler_ummu.Context.Life.{System, child_process_after_fork}
use openeuler_ummu.Context.Fork.{descriptors, has_tid, child_process_after_fork_lem}
use openeuler_ummu.Context.Tids.{Held, Outcome, Answers, ummu_allocate_tid-Held}

abbrev device : Device
device = record {
  ucmdq_ci = λ t. 0;
  ucplq_pi = λ t. 0;
  cpl_entry = λ t i. record { cpl_status = 0; cmdq_ci = 0 };
}

-- the kernel's answer to the request for a tid: HW_CAP_KCMD_PLBI
abbrev answer : TidInfo
answer = record zero_tid_info { mode = mapt_mode_entry; tid = 7; hw_cap = 4 }

abbrev world : World
world = record {
  alloc_tid = λ info. (0, answer);
  queue_kernel = record { page_size = 4096; malloc = true; mmap = λ size. none };
  table_kernel = record { calloc = λ n. false; mmap = λ n size i. none };
  devices = λ i. device;
  urandom = record { opened = true; open_errno = 0; read_ret = 4; read_errno = 0; random_val = 9 };
  mmap_entry = some zero_entry_node;
  malloc_mapt = true;
  malloc_table_ctx = true;
  new_seg_tree = true;
  calloc_seg = true;
  blank_node = zero_node;
}

abbrev empty : CtxInfo
empty = record { mapt_map = []; shared_fd = some 3 }

abbrev one_tid : CtxInfo
one_tid = record { mapt_map = (7, mapt_mem answer) ∷ []; shared_fd = some 3 }

empty-Sound : Sound empty
unfolding hashmap_get
empty-Sound = record {
  fd = 3;
  is_open = refl;
  valid = λ tid m h. cc;
  ready = λ tid m h. absurd (none-ne-some m h);
}

world-Answers : Answers world empty (0, answer)
unfolding hashmap_get page_shift
world-Answers = record {
  fresh = λ e. refl;
  queues = record {
    small = omega arith;
    mapped = λ size start memory h. absurd (none-ne-some _ h);
    fits = λ i t. omega arith;
  };
}

ummu_allocate_tid-Held_example :
    Held empty (Outcome empty answer) (ummu_allocate_tid world empty mapt_mode_entry true)
ummu_allocate_tid-Held_example =
    ummu_allocate_tid-Held world empty mapt_mode_entry true empty-Sound world-Answers

only : (tid : ℕ) (m : MaptInfo) → hashmap_get one_tid.mapt_map tid ≡ some m → mapt_mem answer ≡ m
unfolding hashmap_get
only tid m h = elim (Bool-cases (7 == tid)) [
  | inl e ↦ some-injective _ _ (sym (rw e refl) ∙ h)
  | inr e ↦ absurd (none-ne-some m (sym (rw e refl) ∙ h))
]

one_tid-Sound : Sound one_tid
one_tid-Sound = record {
  fd = 3;
  is_open = refl;
  valid = λ tid m h. ap (λ (x : MaptInfo). x.valid == 0) (sym (only tid m h));
  ready = λ tid m h. subst (λ (x : MaptInfo). Ready x.queue) (only tid m h) (inl refl);
}

one_tid-Obeyed : Obeyed world one_tid
one_tid-Obeyed tid m h u i t = omega (arith, one-le-pow m.queue_ctx.sizes.cpl_que_size 2)

ummu_free_tid-held_example :
    (ctx' : CtxInfo) × (rs : List Request) × (ummu_free_tid world one_tid 7
      ≡ some (if has one_tid 7 then 0 else einval, ctx', none, rs))
    × (has ctx' 7 ≡ false)
    × Sound ctx'
    × ((t : ℕ) → has ctx' t ≡ holds rs t (has one_tid t))
    × (ctx' ≡ (if has one_tid 7 then without one_tid 7 one_tid-Sound else one_tid))
    × ((destroy : List Request) × ((t : ℕ) (held : Bool) → holds destroy t held ≡ held)
        × (rs ≡ (if has one_tid 7 then destroy ++ ummu_put_tid (one_tid.shared_fd) 7 else [])))
ummu_free_tid-held_example = ummu_free_tid-held world one_tid 7 one_tid-Sound one_tid-Obeyed

-- the tid of `answer`, in entry mode
abbrev entry_tid : MaptInfo
entry_tid = record (mapt_mem answer) { block_base = entry_block zero_entry_node }

abbrev one_entry : CtxInfo
one_entry = record { mapt_map = (7, entry_tid) ∷ []; shared_fd = some 3 }

allocated :
    ummu_allocate_tid world empty mapt_mode_entry true
    ≡ some (0, one_entry, some 7, alloc_tid 7 ∷ [])
unfolding ummu_allocate_tid answered create_tid enter ummu_get_tid ummu_mapt_create
    ummu_check_input_param ummu_check_mode
allocated = refl

freed : ummu_free_tid world (one_entry) 7 ≡ some (0, empty, none, plbi_all 7 ∷ put_tid 7 ∷ [])
unfolding ummu_free_tid ummu_kcmd_plbi ummu_put_tid
freed = refl

one_entry-Obeyed : Obeyed world one_entry
one_entry-Obeyed tid m h u i t = omega (arith, one-le-pow m.queue_ctx.sizes.cpl_que_size 2)

allocated_and_freed : Run empty (alloc_tid 7 ∷ plbi_all 7 ∷ put_tid 7 ∷ []) empty
allocated_and_freed =
    call empty (alloc_tid 7 ∷ []) one_entry (plbi_all 7 ∷ put_tid 7 ∷ []) empty
      (call empty [] empty (alloc_tid 7 ∷ []) one_entry (stay empty) (
        allocate world empty mapt_mode_entry true 0 (some 7) (alloc_tid 7 ∷ []) one_entry
          world-Answers allocated))
      (free world one_entry 7 0 none (plbi_all 7 ∷ put_tid 7 ∷ []) empty one_entry-Obeyed freed)

Run-Kept_example : Kept empty (alloc_tid 7 ∷ plbi_all 7 ∷ put_tid 7 ∷ []) empty
Run-Kept_example =
    Run-Kept empty (alloc_tid 7 ∷ plbi_all 7 ∷ put_tid 7 ∷ []) empty empty-Sound allocated_and_freed

abbrev system : System
system = record { malloc_ctx = true; open_device = some 5; create_map = true }

child_process_after_fork_lem_example :
    let (child, closed) = child_process_after_fork system (some one_entry) in
    (closed ++ descriptors child ≡ 3 ∷ 5 ∷ []) × ((t : ℕ) → has_tid child t ≡ false)
child_process_after_fork_lem_example = child_process_after_fork_lem system (some one_entry)

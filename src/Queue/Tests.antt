-- ===== src/Queue/Tests.antt =====
-- Queues with 8 commands and 4 completions.
use openeuler_ummu.Base.{
  ℕ, ◌+◌, ◌-◌, ◌*◌, ◌^◌, ◌≤◌, ◌≡◌, ◌⊎◌, refl, arith, leb, ◌==◌, if◌then◌else◌, Bool, List, [], ◌∷◌,
  some, einval, eagain, etimedout,
}
use openeuler_ummu.Queue.{queue_has_space}
use openeuler_ummu.Queue.Completion.{CplEntry, ummu_get_cpl_psync}
use openeuler_ummu.Queue.Completion.Progress.{Consumed, ummu_get_cpl_psync-Consumed}
use openeuler_ummu.Queue.Command.{CmdEntry, Device, Queue, Sizes, ummu_send_cmd}
use openeuler_ummu.Queue.Command.Send.{Shows, Sent, GivenUp, ummu_send_cmd-Sent}
use openeuler_ummu.Queue.Plbi.{
  QueueInfo, ummu_plbi_va_cmd, TidInfo, zero_tid_info, get_minist_log2size_range, queue_args,
  queue_bytes, sizes_of,
}
use openeuler_ummu.Mapt.{DataInfo, ungrant}
use openeuler_ummu.Queue.Plbi.EachSent.{AllInStep, EachSent, va_command, ummu_plbi_va_cmd-EachSent}
use openeuler_ummu.Queue.Plbi.Range.{get_minist_log2size_range_lem}
use openeuler_ummu.Queue.Plbi.Layout.{Tiled, queue_args-Tiled}
use openeuler_ummu.Queue.Command.Live.{ummu_send_cmd-Sent_of_room}
use openeuler_ummu.Queue.Index.{index_of, queue_has_space_lem}

-- 19 made and 13 used: index 3 against index 13, six entries taken
queue_has_space_lem_example :
    queue_has_space (index_of 3 19) (index_of 3 13) 3 2 ≡ leb (19 - 13 + 2) (2 ^ 3)
queue_has_space_lem_example =
    queue_has_space_lem 3 19 13 2 (omega arith) (omega arith) (omega arith)

-- Completion n is of command n + 6.
abbrev completions : ℕ → CplEntry
completions n = record { cpl_status = 1; cmdq_ci = n + 6 }

-- 5 used and 8 made: the entries 1, 2 and 3, and the expected one is the second.
ummu_get_cpl_psync-Consumed_example :
    (found : Bool) × (last : ℕ) × (ummu_get_cpl_psync completions 2 (index_of 2 8) (index_of 2 5) 8
      ≡ some (if 8 == 5 then einval else if found then 0 else eagain, index_of 2 last))
    × Consumed completions 2 8 (omega arith) 5 8 found last
ummu_get_cpl_psync-Consumed_example =
    ummu_get_cpl_psync-Consumed completions 2 8 (omega arith) 5 8 (omega arith) (omega arith)

abbrev cmd : CmdEntry
cmd = record { opcode = 0x11; cqe_en = 0; range = 12; addr = 0x1000 }

abbrev no_cmd : CmdEntry
no_cmd = record { opcode = 0; cqe_en = 0; range = 0; addr = 0 }

abbrev sizes : Sizes
sizes = record { cmd_que_pi_size = 3; cpl_que_size = 2 }

-- It has consumed 7 commands and completed 5.
abbrev device : Device
device = record { ucmdq_ci = λ t. 7; ucplq_pi = λ t. 5; cpl_entry = λ t. completions }

-- 13 commands made
abbrev queue : Queue
queue = record { cmd_entry = λ i. no_cmd; ucmdq_pi = 13; ucplq_ci = 3; looks = 0; slept = 0 }

device-Shows : Shows device sizes 13 0 (λ t. 7)
device-Shows = record {
  ci = λ t. refl;
  behind = λ t h. omega arith;
  near = λ t h. omega arith;
  pi_fits = λ t. omega arith;
}

-- The device frees two entries between the looks 4 and 5.
abbrev slow_device : Device
slow_device = record device { ucmdq_ci = λ t. if leb 5 t then 7 else 5 }

abbrev slow_count : ℕ → ℕ
slow_count t = if leb 5 t then 7 else 5

slow_device-Shows : Shows slow_device sizes 13 0 slow_count
slow_device-Shows = record {
  ci = λ t. ground arith;
  behind = λ t h. ground arith;
  near = λ t h. ground arith;
  pi_fits = λ t. omega arith;
}

ummu_send_cmd-Sent_of_room_example :
    (q' : Queue) × (ummu_send_cmd slow_device sizes 1 cmd queue ≡ some (0, q'))
    × Sent slow_device sizes 1 13 cmd queue slow_count q'
ummu_send_cmd-Sent_of_room_example =
    ummu_send_cmd-Sent_of_room slow_device sizes 1 13 cmd queue slow_count (omega arith)
      (omega arith) (omega arith) refl (omega arith) slow_device-Shows 5 (omega arith) (omega arith)
      (omega arith)

ummu_send_cmd-Sent_example :
    (status : ℕ) × (q' : Queue) × (ummu_send_cmd device sizes 1 cmd queue ≡ some (status, q'))
    × (q'.slept ≤ 0 + 30132)
    × (((status ≡ 0) × Sent device sizes 1 13 cmd queue (λ t. 7) q')
        ⊎ ((status ≡ etimedout) × GivenUp device sizes 1 13 cmd queue (λ t. 7) q'))
ummu_send_cmd-Sent_example =
    ummu_send_cmd-Sent device sizes 1 13 cmd queue (λ t. 7) (omega arith) (omega arith)
      (omega arith) refl (omega arith) device-Shows

-- 5 pages of 4K are within 2^15 bytes.
get_minist_log2size_range_lem_example :
    (0x5000 ≤ 2 ^ get_minist_log2size_range 0x5000)
    × ((r : ℕ) → 0x5000 ≤ 2 ^ r → get_minist_log2size_range 0x5000 ≤ r)
get_minist_log2size_range_lem_example =
    get_minist_log2size_range_lem 0x5000 (omega arith) (omega arith)

-- two pages of commands and one of completions
abbrev tid_info : TidInfo
tid_info = record zero_tid_info { pcmdq_order = 1; ummu_cnt = 2 }

queue_args-Tiled_example :
    Tiled 0x1000
      (sizes_of 0x1000 tid_info)
      0x700000
      (0x700000 + 2 * queue_bytes 0x1000 tid_info)
      (queue_args 2 0x1000 (queue_bytes 0x1000 tid_info) tid_info 0x700000)
queue_args-Tiled_example =
    queue_args-Tiled 2 0 tid_info 0x700000 (omega arith) (omega arith) (omega arith)

-- a tid with two queues, of a device with room and of a slow one
abbrev two_queues : QueueInfo
two_queues = record {
  tid = 7;
  double_plbi = 0;
  kcmd_plbi = 0;
  queue_ctx = record {
    ummu_cnt = 2;
    queue_size = 0x3000;
    sizes = sizes;
    queue = [];
    memory = queue ∷ queue ∷ [];
  };
}

abbrev two_devices : ℕ → Device
two_devices i = if i == 0 then device else slow_device

abbrev two_counts : ℕ → ℕ → ℕ
two_counts i t = if i == 0 then 7 else slow_count t

abbrev three_pages : DataInfo
three_pages = record {
  data_base = 0x1000;
  data_size = 0x3000;
  data_limit = 0x3fff;
  perm = 0;
  e_bit = 0;
  token_check = 0;
  tokenval = 0;
  bytoken = 0;
  op = ungrant;
  lvl = 3;
}

two_queues-AllInStep : AllInStep two_devices (λ i. 13) two_counts sizes 1 0 (queue ∷ queue ∷ [])
two_queues-AllInStep = (
  record { producer = refl; ci_fits = omega arith; shows = device-Shows },
  (record { producer = refl; ci_fits = omega arith; shows = slow_device-Shows }, tt),
)

ummu_plbi_va_cmd-EachSent_example :
    (memory : List Queue) × (ummu_plbi_va_cmd two_devices (some 3) two_queues three_pages
      ≡ some
          (record two_queues { queue_ctx = record (two_queues.queue_ctx) { memory = memory } }, []))
    × EachSent two_devices
        (λ i. 13)
        two_counts
        sizes
        1
        (va_command three_pages)
        0
        (queue ∷ queue ∷ [])
        memory
ummu_plbi_va_cmd-EachSent_example =
    ummu_plbi_va_cmd-EachSent two_devices (λ i. 13) two_counts (some 3) two_queues three_pages refl
      (omega arith) (omega arith) (omega arith) two_queues-AllInStep

-- ===== src/Resource/Tests.antt =====
-- Pages of 4K.
use openeuler_ummu.Base.{◌/◌, ◌%◌, ◌^◌, ◌≡◌, arith}
use openeuler_ummu.Resource.{ummu_offset_blk, ummu_offset_que}
use openeuler_ummu.Resource.Offset.{offset_fields}

offset_fields_example :
    (ummu_offset_blk 12 5 77 % 2 ^ 12 ≡ 0)
    × (ummu_offset_blk 12 5 77 / 2 ^ 12 % 4 ≡ 1)
    × (ummu_offset_blk 12 5 77 / 2 ^ 12 / 4 % 1024 ≡ 5)
    × (ummu_offset_blk 12 5 77 / 2 ^ 12 / 4096 ≡ 77)
    × (ummu_offset_que 12 77 % 2 ^ 12 ≡ 0)
    × (ummu_offset_que 12 77 / 2 ^ 12 % 4 ≡ 2)
    × (ummu_offset_que 12 77 / 2 ^ 12 / 4 ≡ 77)
offset_fields_example = offset_fields 12 (omega arith) 5 77 (omega arith) (omega arith)

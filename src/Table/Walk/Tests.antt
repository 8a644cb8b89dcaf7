-- ===== src/Table/Walk/Tests.antt =====
-- Grants in a fresh table, and what walks find.
use openeuler_ummu.Base.{
  ℕ, zero, suc, inl, ◌+◌, ◌≡◌, refl, sym, ap, arith, true, Option, none, some, List, [], ◌∷◌,
}
use mathlib.Core.Option.{some-injective}
use openeuler_ummu.Common.{find_first_zero_bit}
use openeuler_ummu.Mapt.{
  DataInfo, grant, add_token, table_lvl_offset, lvl_offset_low, lvl_offset_high, addr_full,
  table_addr_low, table_addr_high,
}
use openeuler_ummu.Table.{Kernel, State, TableNode, zero_node, load, store}
use openeuler_ummu.Table.Run.{Runs, Ends}
use openeuler_ummu.Table.Level.{level_block_index, level_range_mask}
use openeuler_ummu.Table.LevelBlock.Cells.{IsBlank}
use openeuler_ummu.Table.Op.{ummu_table_op, init_table}
use openeuler_ummu.Table.Create.{empty_ctx}
use openeuler_ummu.Table.Walk.{Reading, walk}
use openeuler_ummu.Table.Walk.Node.{granted}
use openeuler_ummu.Table.Walk.Grant.{
  IsTable, lookup, fill_table, Granted, fill_table-Granted, init_table-Fresh,
}
use openeuler_ummu.Table.Walk.Retoken.{rights}
use openeuler_ummu.Table.Walk.Update.{ummu_table_op-rights}
use openeuler_ummu.Token.{ummu_add_token, ummu_update_token}
use openeuler_ummu.Table.Walk.History.{AreRequests, fill_all, ServedFrom, create_and_grant}

abbrev zeroing : Kernel
zeroing = record { calloc = λ _. true; mmap = λ _ _ _. some (λ _. zero_node) }

zeroing-IsBlank : IsBlank zeroing
zeroing-IsBlank c size i nodes e j =
    ap (λ (f : ℕ → TableNode). (f j).valid) (sym (some-injective (λ _. zero_node) nodes e))

abbrev request : ℕ → ℕ → ℕ → DataInfo
request token base limit = record {
  data_base = base;
  data_size = limit + 1;
  data_limit = limit;
  perm = 3;
  e_bit = 0;
  token_check = 1;
  tokenval = token;
  bytoken = 0;
  op = grant;
  lvl = 3;
}

-- two pages of one node, and a range over several levels
abbrev three_grants : List DataInfo
three_grants =
    request 7 0x1000 0x1fff ∷ request 8 0x5000_0000 0x1500_0000_0fff ∷ request 9 0x2000 0x2fff ∷ []

read_after : List ℕ → List (Option Reading)
unfolding init_table fill_all walk
read_after addrs = elim (init_table zeroing zero_node true 0x1_0000 0) [
  | none ↦ []
  | some (_, s) ↦ elim (fill_all zeroing three_grants s) [
    | none ↦ []
    | some (ret, s') ↦ each s' addrs
  ]
]
  where
    each : State → List ℕ → List (Option Reading)
    each s [] = []
    each s (a ∷ rest) = lookup s a ∷ each s rest

-- addresses of each grant, and two of none
found :
    read_after
      (0x1000 ∷ 0x1fff ∷ 0x5000_0000 ∷ 0x0500_0000_1234 ∷ 0x2abc ∷ 0x3000 ∷ 0x1500_0000_1000 ∷ [])
    ≡ some (granted (request 7 0 0))
      ∷ some (granted (request 7 0 0))
      ∷ some (granted (request 8 0 0))
      ∷ some (granted (request 8 0 0))
      ∷ some (granted (request 9 0 0))
      ∷ none
      ∷ none
      ∷ []
unfolding read_after find_first_zero_bit table_lvl_offset lvl_offset_low lvl_offset_high addr_full
    table_addr_low table_addr_high level_block_index level_range_mask
found = refl

-- the table that `init_table` creates
abbrev created : State
unfolding init_table
created = elim (init_table zeroing zero_node true 0x1_0000 0) [
  | none ↦ record { ctx = empty_ctx true 0x1_0000; root = zero_node; lvl = 3; calls = 0 }
  | some (_, s) ↦ s
]

created-IsTable : IsTable created
unfolding init_table find_first_zero_bit table_lvl_offset lvl_offset_low lvl_offset_high load store
created-IsTable =
    (init_table-Fresh zeroing zeroing-IsBlank zero_node true 0x1_0000 0 (omega arith)).0

requests : AreRequests three_grants
requests = (
  record { op = refl; flag = omega arith; ordered = omega arith; small = omega arith },
  (
    record { op = refl; flag = omega arith; ordered = omega arith; small = omega arith },
    (record { op = refl; flag = omega arith; ordered = omega arith; small = omega arith }, tt),
  ),
)

create_and_grant_example :
    Ends
      (init_table zeroing zero_node true 0x1_0000 0)
      (ServedFrom zeroing zeroing-IsBlank three_grants 0x5abc_d000)
create_and_grant_example =
    create_and_grant zeroing zeroing-IsBlank three_grants 0x5abc_d000 requests (omega arith)
      zero_node true 0x1_0000 0 (omega arith)

-- the table behind a fill that succeeds, and `created` behind one that does not
abbrev table_after : Option (ℕ × State) → State
table_after none = created
table_after (some (zero, s)) = s
table_after (some (suc e, s)) = created

abbrev one_page : DataInfo
one_page = request 7 0x1000 0x1fff

table_after-IsTable :
    (o : Option (ℕ × State)) → Ends o (Granted zeroing one_page created) → IsTable (table_after o)
table_after-IsTable none h = absurd h
table_after-IsTable (some (zero, s)) h = (h refl).1
table_after-IsTable (some (suc e, s)) h = created-IsTable

-- the table with one page granted
abbrev one_granted : State
one_granted = table_after (fill_table zeroing one_page created)

one_granted-IsTable : IsTable one_granted
one_granted-IsTable = table_after-IsTable (fill_table zeroing one_page created) (
    fill_table-Granted zeroing zeroing-IsBlank one_page (omega arith) refl (omega arith)
      (omega arith) created created-IsTable)

abbrev second_token : DataInfo
second_token = record one_page { tokenval = 8; op = add_token }

read_token : ℕ → Option Reading
unfolding init_table ummu_table_op walk
read_token a = elim (ummu_table_op zeroing second_token one_granted) [
  | none ↦ none
  | some (ret, s) ↦ lookup s a
]

-- The second token is added to the page.
two_tokens : read_token 0x1abc ≡ some (record (granted one_page) { held = 7 ∷ 8 ∷ [] })
unfolding read_token find_first_zero_bit table_lvl_offset lvl_offset_low lvl_offset_high addr_full
    table_addr_low table_addr_high level_block_index level_range_mask ummu_update_token
    ummu_add_token
two_tokens = refl

ummu_table_op-rights_example :
    Runs
      (ummu_table_op zeroing second_token)
      one_granted
      λ _ s'. IsTable s' × (rights (lookup s' 0x1abc) ≡ rights (lookup one_granted 0x1abc))
ummu_table_op-rights_example =
    ummu_table_op-rights zeroing second_token one_granted 0x1abc (inl refl) (omega arith)
      one_granted-IsTable

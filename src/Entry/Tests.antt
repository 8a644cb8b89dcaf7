-- ===== src/Entry/Tests.antt =====
-- An entry that is granted with one token.
use openeuler_ummu.Base.{◌≡◌, arith}
use openeuler_ummu.Mapt.{EntryNode, DataInfo, op_end}
use openeuler_ummu.Entry.{entry_grant, entry_ungrant}
use openeuler_ummu.Entry.Spec.{grant_spec, ungrant_spec}
use openeuler_ummu.Entry.Refine.{
  view, IsEntry, IsRequest, entry_grant-grant_spec, entry_ungrant-ungrant_spec,
}

abbrev granted : EntryNode
granted = record {
  words = record {
    valid = 1;
    e_bit = 0;
    permission = 3;
    token_check = 1;
    nonce = 1;
    token_val_0 = 7;
    token_val_1 = 7;
  };
  base_low = 0x1000;
  base_high = 1;
  limit_low = 0x1fff;
  limit_high = 1;
}

abbrev request : DataInfo
request = record {
  data_base = 0x1_0000_1000;
  data_size = 0x1000;
  data_limit = 0x1_0000_1fff;
  perm = 3;
  e_bit = 0;
  token_check = 1;
  tokenval = 9;
  bytoken = 1;
  op = op_end;
  lvl = 3;
}

granted-IsEntry : IsEntry granted
granted-IsEntry = ground arith

request-IsRequest : IsRequest request
request-IsRequest = omega arith

entry_grant-grant_spec_example :
    let (n, status) = entry_grant granted request in
    ((view n, status) ≡ grant_spec (view granted) request) × IsEntry n
entry_grant-grant_spec_example =
    entry_grant-grant_spec granted request granted-IsEntry request-IsRequest

entry_ungrant-ungrant_spec_example :
    let (n, status) = entry_ungrant granted (record request { tokenval = 7 }) in
    ((view n, status) ≡ ungrant_spec (view granted) (record request { tokenval = 7 })) × IsEntry n
entry_ungrant-ungrant_spec_example =
    entry_ungrant-ungrant_spec granted (record request { tokenval = 7 }) granted-IsEntry

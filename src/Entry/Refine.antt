-- ===== src/Entry/Refine.antt =====
-- The entry of a tid behaves as the grant that it stands for.
use openeuler_ummu.Base.{
  ℕ, ◌^◌, ◌%◌, ◌≤◌, ◌<◌, ◌≡◌, ◌≢◌, arith, ◌==◌, if◌then◌else◌, Option, none, some,
}
use openeuler_ummu.Mapt.{EntryNode, DataInfo, addr_full, entry_addr_low, entry_addr_high}
use native.Mathlib.Decide.{ℕ_discrete}
use openeuler_ummu.Mapt.Addr.{split_round_trips, entry_addr_high-div}
use openeuler_ummu.Token.{ummu_update_token, ummu_add_token, ummu_remove_token}
use openeuler_ummu.Token.View.{tokens, IsTokens}
use openeuler_ummu.Entry.{
  fill_words, ummu_entry_fill_node, entry_base, entry_limit, ummu_entry_param_check,
  ummu_entry_ungrant_param_check, ummu_entry_op, entry_grant, entry_ungrant,
}
use openeuler_ummu.Entry.Spec.{Grant, grant_spec, ungrant_spec}

-- the grant that an entry stands for
abbrev pub view : EntryNode → Option Grant
view n =
    if n.valid == 0
    then none
    else some (record {
      base = entry_base n;
      limit = entry_limit n;
      perm = n.permission;
      e_bit = n.e_bit;
      token_check = n.token_check;
      tokens = tokens n.words;
    })

pub record IsEntry (n : EntryNode) : Type 0 where
  pub tokens_ok : IsTokens n.words
  pub valid_bit : n.valid ≤ 1
  pub check_bit : n.token_check ≤ 1
  pub has_token : n.valid ≡ 1 → n.token_check ≡ 1 → n.nonce ≢ 0

-- The request fits the fields of an entry, as the checks of `ummu_grant` see to.
pub record IsRequest (d : DataInfo) : Type 0 where
  pub base : d.data_base < 2 ^ 48
  pub limit : d.data_limit < 2 ^ 48
  pub perm : d.perm < 2 ^ 6
  pub e_bit : d.e_bit ≤ 1
  pub token_check : d.token_check ≤ 1

-- The request's range through the address fields of the entry.
base_field : (a : ℕ) → a < 2 ^ 48 → addr_full (entry_addr_low a) (entry_addr_high a % 2 ^ 16) ≡ a
base_field a h =
    let small : entry_addr_high a % 2 ^ 16 ≡ entry_addr_high a =
      omega (arith, entry_addr_high-div a) in
    rw small (split_round_trips a 0 0 h (omega arith) (omega arith)).0

module _ (n : EntryNode) (d : DataInfo) (v : IsEntry n) (r : IsRequest d) where
  -- a grant where there is none
  new_grant :
      n.valid ≡ 0
      → ((view (entry_grant n d).0, (entry_grant n d).1) ≡ grant_spec (view n) d)
        × IsEntry (entry_grant n d).0
  unfolding entry_grant ummu_entry_param_check ummu_entry_op ummu_entry_fill_node fill_words
  new_grant h = (ground (arith, base_field d.data_base, base_field d.data_limit), ground arith)

  -- a second grant
  next_grant :
      n.valid ≡ 1
      → ((view (entry_grant n d).0, (entry_grant n d).1) ≡ grant_spec (view n) d)
        × IsEntry (entry_grant n d).0
  unfolding entry_grant ummu_entry_param_check ummu_entry_op ummu_update_token ummu_add_token
  next_grant h = (ground arith, ground arith)

-- Entry mode, for an entry that keeps the invariant: a grant request changes the entry as the
-- specification changes the grant, with the same status, and keeps the invariant.
pub entry_grant-grant_spec :
    (n : EntryNode) (d : DataInfo)
    → IsEntry n
    → IsRequest d
    → let (n', status) = entry_grant n d in ((view n', status) ≡ grant_spec (view n) d) × IsEntry n'
entry_grant-grant_spec n d v r = elim (ℕ_discrete n.valid 0) [
  | yes h ↦ new_grant n d v r h
  | no h ↦ next_grant n d v r (omega arith)
]

-- Entry mode, for an entry that keeps the invariant: an ungrant request, by range or by token, changes
-- the entry as the specification changes the grant, with the same status, and keeps the invariant.
pub entry_ungrant-ungrant_spec :
    (n : EntryNode) (d : DataInfo)
    → IsEntry n
    → let (n', status) = entry_ungrant n d in
      ((view n', status) ≡ ungrant_spec (view n) d) × IsEntry n'
unfolding entry_ungrant ummu_entry_ungrant_param_check ummu_entry_op ummu_update_token
    ummu_remove_token
entry_ungrant-ungrant_spec n d v = (ground arith, ground arith)

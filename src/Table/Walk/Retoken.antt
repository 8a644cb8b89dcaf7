-- ===== src/Table/Walk/Retoken.antt =====
-- Nodes that differ at most in their tokens, and the walks over them (`ummu_update_token` of ummu_mapt.c).
use openeuler_ummu.Base.{
  ℕ, zero, suc, ◌+◌, ◌/◌, ◌%◌, ◌≡◌, inl, inr, refl, ap, ◌∙◌, Option, none, some, leb, ◌==◌, ◌&&◌,
  Bool-cases,
}
use mathlib.Core.Path.{subst}
use openeuler_ummu.Mapt.{
  GrantOp, grant, add_token, remove_token, ungrant, op_end, NodeWords, DataInfo,
}
use openeuler_ummu.Token.{ummu_add_token, ummu_remove_token, ummu_update_token}
use openeuler_ummu.Table.{State, TableNode, lvl_offset_of, node_base_of, node_limit_of}
use openeuler_ummu.Table.Walk.{Reading, span, read_node, walk, cell}

-- the same but for tokens
abbrev pub SameRights : NodeWords → NodeWords → Type 0
SameRights w w' =
    (w'.valid ≡ w.valid)
    × (w'.permission ≡ w.permission)
    × (w'.e_bit ≡ w.e_bit)
    × (w'.token_check ≡ w.token_check)

SameRights-add : (w : NodeWords) (d : DataInfo) → SameRights w ((ummu_add_token w d).0)
unfolding ummu_add_token
SameRights-add w d = elim (Bool-cases ((w.valid == 1) && (w.nonce == 1))) [
  | inl e ↦ rw e (refl, refl, refl, refl)
  | inr e ↦ rw e (refl, refl, refl, refl)
]

SameRights-remove : (w : NodeWords) (d : DataInfo) → SameRights w ((ummu_remove_token w d).0)
unfolding ummu_remove_token
SameRights-remove w d = elim (Bool-cases (w.token_val_0 == d.tokenval)) [
  | inl e ↦ rw e (refl, refl, refl, refl)
  | inr e ↦ elim (Bool-cases (w.token_val_1 == d.tokenval)) [
    | inl f ↦ rw (e, f) (refl, refl, refl, refl)
    | inr f ↦ rw (e, f) (refl, refl, refl, refl)
  ]
]

pub ummu_update_token-SameRights :
    (w : NodeWords) (d : DataInfo) → SameRights w ((ummu_update_token w d).0)
unfolding ummu_update_token
ummu_update_token-SameRights w d = by_op d.op
  where
    by_op :
        (op : GrantOp)
        → SameRights w (
            (elim op as (λ _. NodeWords × ℕ) [
              | add_token ↦ ummu_add_token w d
              | remove_token ↦ ummu_remove_token w d
              | _ ↦ (w, 22)
            ]).0)
    by_op grant = (refl, refl, refl, refl)
    by_op add_token = SameRights-add w d
    by_op remove_token = SameRights-remove w d
    by_op ungrant = (refl, refl, refl, refl)
    by_op op_end = (refl, refl, refl, refl)

abbrev pub Retokened : TableNode → TableNode → Type 0
Retokened n n' = (w : NodeWords) × (n' ≡ record n { words = w }) × SameRights n.words w

pub Retokened-refl : (n : TableNode) → Retokened n n
Retokened-refl n = (n.words, refl, (refl, refl, refl, refl))

pub Retokened-trans : (m n o : TableNode) → Retokened m n → Retokened n o → Retokened m o
Retokened-trans m n o (v, e, a) (w, f, b) =
    let same : SameRights (record m { words = v }).words w =
      subst (λ (t : TableNode). SameRights t.words w) e b in
    (
      w,
      f ∙ ap (λ (t : TableNode). record t { words = w }) e,
      (same.0 ∙ a.0, same.1 ∙ a.1, same.2 ∙ a.2, same.3 ∙ a.3),
    )

-- permission, e_bit and token_check of an answer, if there is one
abbrev pub rights : Option Reading → Option (ℕ × ℕ × ℕ)
rights none = none
rights (some r) = some (r.permission, r.e_bit, r.token_check)

read_rights :
    (f g : ℕ → ℕ → ℕ → Option Reading) (n : TableNode) (w : NodeWords) (r : ℕ)
    → SameRights n.words w
    → rights (f n.next_lv_index (lvl_offset_of n) r)
      ≡ rights (g n.next_lv_index (lvl_offset_of n) r)
    → rights (read_node f (record n { words = w }) r) ≡ rights (read_node g n r)
read_rights f g n w r (valid, perm, ebit, check) h = elim (Bool-cases (n.valid == 1)) [
  | inr e ↦ rw (valid, e) refl
  | inl e ↦ elim (Bool-cases (leb (node_base_of n) r && leb r (node_limit_of n))) [
    | inl i ↦ rw (valid, e, i) (rw (perm, ebit, check) refl)
    | inr i ↦ elim (Bool-cases (n.type_bit == 0)) [
      | inl t ↦ rw (valid, e, i, t) h
      | inr t ↦ rw (valid, e, i, t) refl
    ]
  ]
]

-- Where nodes differ at most in their tokens, walks find the same rights.
pub rights-walk :
    (s s' : State)
    → ((c j : ℕ) → Retokened (cell s c j) (cell s' c j))
    → (k b offset a : ℕ) → rights (walk s' k b offset a) ≡ rights (walk s k b offset a)
unfolding walk
rights-walk s s' same zero b offset a = refl
rights-walk s s' same (suc k) b offset a =
    let n = cell s b (offset + a / span k) in
    let (w, e, kept) = same b (offset + a / span k) in
    ap (λ t. rights (read_node (walk s' k) t (a % span k))) e
    ∙ read_rights (walk s' k) (walk s k) n w (a % span k) kept
        (rights-walk s s' same k n.next_lv_index (lvl_offset_of n) (a % span k))

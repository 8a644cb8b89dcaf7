-- ===== src/Token/View.antt =====
-- The tokens of a node as a list: adding appends, removing erases one occurrence.
use openeuler_ummu.Base.{
  ℕ, ◌≤◌, ◌≡◌, ◌≢◌, arith, ◌==◌, ◌&&◌, if◌then◌else◌, List, [], ◌∷◌, ◌++◌, einval, ◌⊎◌, inl, inr,
  Bool-cases,
}
use openeuler_ummu.Mapt.{NodeWords, DataInfo}
use openeuler_ummu.Token.{ummu_add_token, ummu_remove_token}

-- the tokens that `nonce` counts
abbrev pub tokens : NodeWords → List ℕ
tokens n =
    if n.nonce == 0
    then []
    else if n.nonce == 1
    then n.token_val_0 ∷ []
    else n.token_val_0 ∷ n.token_val_1 ∷ []

-- A node with one token holds it in both fields; a node holds tokens exactly if it is valid and its
-- tokens are checked.
pub record IsTokens (n : NodeWords) : Type 0 where
  pub few : n.nonce ≤ 2
  pub twice : n.nonce ≡ 1 → n.token_val_0 ≡ n.token_val_1
  pub valid : n.nonce ≢ 0 → n.valid ≡ 1
  pub checked : n.nonce ≢ 0 → n.token_check ≡ 1

-- `List.erase` for numbers: drops the first occurrence.
abbrev pub erase : ℕ → List ℕ → List ℕ
erase t [] = []
erase t (x ∷ xs) = if x == t then xs else x ∷ erase t xs

-- Adding a token to a node that holds exactly one appends it; a node that holds none, or two, is
-- refused and left alone. The invariant is kept.
pub ummu_add_token-tokens :
    (n : NodeWords) (d : DataInfo)
    → IsTokens n
    → let (n', status) = ummu_add_token n d in
      IsTokens n'
      × (((n.nonce ≡ 1) × (status ≡ 0) × (tokens n' ≡ tokens n ++ d.tokenval ∷ []))
          ⊎ ((n.nonce ≢ 1) × (status ≡ einval) × (n' ≡ n)))
unfolding ummu_add_token
ummu_add_token-tokens n d v = elim (Bool-cases ((n.valid == 1) && (n.nonce == 1))) [
  | inl e ↦ rw e (ground arith, inl (ground arith, ground arith, ground arith))
  | inr e ↦ rw e (v, inr (ground arith, ground arith, ground arith))
]

-- Removing a token from a node that holds two erases one occurrence of it; a token that the node
-- does not hold is refused and the node left alone. The invariant is kept.
pub ummu_remove_token-tokens :
    (n : NodeWords) (d : DataInfo)
    → IsTokens n
    → n.nonce ≡ 2
    → let (n', status) = ummu_remove_token n d in
      IsTokens n'
      × (((status ≡ 0) × (n'.nonce ≡ 1) × (tokens n' ≡ erase d.tokenval (tokens n)))
          ⊎ ((status ≡ einval) × (n' ≡ n) × (erase d.tokenval (tokens n) ≡ tokens n)))
unfolding ummu_remove_token
ummu_remove_token-tokens n d v two = elim (Bool-cases (n.token_val_0 == d.tokenval)) [
  | inl e ↦ rw e (ground arith, inl (ground arith, ground arith, ground arith))
  | inr e ↦ elim (Bool-cases (n.token_val_1 == d.tokenval)) [
    | inl f ↦ rw (e, f) (ground arith, inl (ground arith, ground arith, ground arith))
    | inr f ↦ rw (e, f) (v, inr (ground arith, ground arith, ground arith))
  ]
]

-- ===== src/Token.antt =====
-- ummu_mapt.c: tokens. `ummu_get_token`, and the token fields of a node.
pub mod View
pub mod Get
mod Tests
use openeuler_ummu.Base.{ℕ, ◌==◌, ◌&&◌, if◌then◌else◌, Option, none, some, einval}
use openeuler_ummu.Common.Random.{Urandom, ummu_gen_random}
use openeuler_ummu.Mapt.{GrantOp, add_token, remove_token, NodeWords, DataInfo, ummu_max_token_num}

-- `struct ummu_token_info`
pub record TokenInfo : Type 0 where
  pub input : ℕ
  pub token_val : ℕ

-- The status, the value stored through `value` (`old` where none is), and the caller's structure.
-- The lock around the random source has no effect on a single call.
unfoldable pub ummu_get_token : Urandom → TokenInfo → ℕ → ℕ × ℕ × TokenInfo
ummu_get_token u token old =
    if token.input == 0
    then (0, token.token_val, token)
    else if token.input == 1
    then (let (ret, stored) = ummu_gen_random u in
        let value : ℕ = elim stored [ none ↦ old | some v ↦ v ] in
        if ret == 0 then (0, value, record token { token_val = value }) else (einval, value, token))
    else (einval, old, token)

unfoldable pub ummu_add_token : NodeWords → DataInfo → NodeWords × ℕ
ummu_add_token node d =
    if (node.valid == 1) && (node.nonce == 1)
    then (record node { token_val_1 = d.tokenval; nonce = ummu_max_token_num }, 0)
    else (node, einval)

unfoldable pub ummu_remove_token : NodeWords → DataInfo → NodeWords × ℕ
ummu_remove_token node d =
    if node.token_val_0 == d.tokenval
    then (record node { token_val_0 = node.token_val_1; nonce = 1 }, 0)
    else if node.token_val_1 == d.tokenval
    then (record node { token_val_1 = node.token_val_0; nonce = 1 }, 0)
    else (node, einval)

unfoldable pub ummu_update_token : NodeWords → DataInfo → NodeWords × ℕ
ummu_update_token node d = elim d.op [
  | add_token ↦ ummu_add_token node d
  | remove_token ↦ ummu_remove_token node d
  | _ ↦ (node, einval)
]

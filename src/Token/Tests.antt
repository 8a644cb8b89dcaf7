-- ===== src/Token/Tests.antt =====
-- A node with one token, and with two.
use openeuler_ummu.Base.{true, ◌↔◌, ◌⊎◌, ◌≢◌}
use openeuler_ummu.Common.Random.{Urandom}
use openeuler_ummu.Token.{TokenInfo, ummu_get_token}
use openeuler_ummu.Token.Get.{ummu_get_token_lem}
use openeuler_ummu.Base.{◌≡◌, ◌≢◌, ◌⊎◌, [], ◌∷◌, ◌++◌, arith, refl, einval}
use openeuler_ummu.Mapt.{NodeWords, DataInfo, add_token}
use openeuler_ummu.Token.{ummu_add_token, ummu_remove_token}
use openeuler_ummu.Token.View.{
  tokens, IsTokens, erase, ummu_add_token-tokens, ummu_remove_token-tokens,
}

abbrev one_token : NodeWords
one_token = record {
  valid = 1;
  e_bit = 0;
  permission = 3;
  token_check = 1;
  nonce = 1;
  token_val_0 = 7;
  token_val_1 = 7;
}

abbrev two_tokens : NodeWords
two_tokens = record one_token { nonce = 2; token_val_1 = 9 }

abbrev request : DataInfo
request = record {
  data_base = 0;
  data_size = 1;
  data_limit = 0;
  perm = 3;
  e_bit = 0;
  token_check = 1;
  tokenval = 9;
  bytoken = 1;
  op = add_token;
  lvl = 3;
}

ummu_add_token-tokens_example :
    let (n, status) = ummu_add_token one_token request in
    IsTokens n
    × (((one_token.nonce ≡ 1) × (status ≡ 0) × (tokens n ≡ tokens one_token ++ 9 ∷ []))
        ⊎ ((one_token.nonce ≢ 1) × (status ≡ einval) × (n ≡ one_token)))
ummu_add_token-tokens_example = ummu_add_token-tokens one_token request (ground arith)

ummu_remove_token-tokens_example :
    let (n, status) = ummu_remove_token two_tokens request in
    IsTokens n
    × (((status ≡ 0) × (n.nonce ≡ 1) × (tokens n ≡ erase 9 (tokens two_tokens)))
        ⊎ ((status ≡ einval)
            × (n ≡ two_tokens)
            × (erase 9 (tokens two_tokens) ≡ tokens two_tokens)))
ummu_remove_token-tokens_example = ummu_remove_token-tokens two_tokens request (ground arith) refl

-- a read of two bytes that leaves errno at 0
abbrev short_read : Urandom
short_read = record { opened = true; open_errno = 0; read_ret = 2; read_errno = 0; random_val = 5 }

abbrev random_token : TokenInfo
random_token = record { input = 1; token_val = 0 }

-- The lemma for a short read.
ummu_get_token_lem_example :
    (((ummu_get_token short_read random_token 77).0 ≡ 0) ↔ (
      (random_token.input ≡ 0)
      ⊎ ((random_token.input ≡ 1)
          × (true ≡ true)
          × ((short_read.read_ret ≡ 4) ⊎ (short_read.read_errno ≡ 0)))))
    × (random_token.input ≡ 1
        → true ≡ true
        → short_read.read_ret ≢ 4
        → (ummu_get_token short_read random_token 77).1 ≡ 77)
ummu_get_token_lem_example = ummu_get_token_lem short_read random_token 77 (ground arith)

-- ===== src/Token/Get.antt =====
-- When `ummu_get_token` of ummu_mapt.c succeeds.
use openeuler_ummu.Base.{ℕ, ◌≡◌, ◌≢◌, ◌↔◌, ◌⊎◌, arith, true, false}
use openeuler_ummu.Common.Random.{Urandom, ummu_gen_random}
use openeuler_ummu.Token.{TokenInfo, ummu_get_token}

-- For an `open` that sets errno where it fails: a token is got exactly if it is the caller's (input 0),
-- or a random one (input 1) for which the source was opened and either four bytes were read or errno
-- was 0 after a shorter read. In that last case nothing is stored, and the value used is the old one.
pub ummu_get_token_lem :
    (u : Urandom) (token : TokenInfo) (old : ℕ)
    → (u.opened ≡ false → u.open_errno ≢ 0)
    → (((ummu_get_token u token old).0 ≡ 0) ↔ (
        (token.input ≡ 0)
        ⊎ ((token.input ≡ 1) × (u.opened ≡ true) × ((u.read_ret ≡ 4) ⊎ (u.read_errno ≡ 0)))))
      × (token.input ≡ 1 → u.opened ≡ true → u.read_ret ≢ 4 → (ummu_get_token u token old).1 ≡ old)
unfolding ummu_get_token ummu_gen_random
ummu_get_token_lem u token old h = ground arith

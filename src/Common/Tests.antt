-- ===== src/Common/Tests.antt =====
-- The bit searches on a bitmap of two words.
use openeuler_ummu.Base.{ℕ, zero, suc, ◌≡◌, refl, List, [], ◌∷◌, arith}
use openeuler_ummu.Common.{
  find_first_zero_bit, find_first_bit, find_next_bit, first_zero_loop, first_one_loop, ffz, ffsl,
  bits_to_longs,
}
use openeuler_ummu.Common.Bitmap.{IsWords}

-- bits 0 to 63, 64, 67
abbrev two_words : List ℕ
two_words = 0xffff_ffff_ffff_ffff ∷ 0x9 ∷ []

two_words-IsWords : IsWords two_words
two_words-IsWords zero = omega arith
two_words-IsWords (suc zero) = omega arith
two_words-IsWords (suc (suc i)) = omega arith

searches :
    (find_first_zero_bit two_words 128 ≡ 65)
    × (find_first_bit two_words 128 ≡ 0)
    × (find_next_bit two_words 128 65 ≡ 67)
    × (find_next_bit two_words 128 68 ≡ 128)
unfolding find_first_zero_bit find_first_bit find_next_bit first_zero_loop first_one_loop ffz ffsl
    bits_to_longs
searches = (refl, refl, refl, refl)

-- ===== src/Conv/Tests.antt =====
-- A negative number to its string and back.
use it_works_os.Base.{ℕ, ◌≡◌, refl, arith, some, List, [], ◌∷◌}
use it_works_os.Base.Int.{negsuc}
use it_works_os.Conv.{conv_itoa, conv_atoi, extract, digit_char, swap_ends}
use it_works_os.Conv.Digits.{conv_atoi-conv_itoa}

minus_42 : conv_itoa (negsuc 41) 10 ≡ some (0x2D ∷ 0x34 ∷ 0x32 ∷ [])
unfolding conv_itoa extract digit_char swap_ends
minus_42 = refl

conv_atoi-conv_itoa_example :
    (str : List ℕ) × (conv_itoa (negsuc 41) 10 ≡ some str) × (conv_atoi str 10 ≡ some 4294967254)
conv_atoi-conv_itoa_example =
    conv_atoi-conv_itoa 10 (omega arith) (omega arith) (negsuc 41) (omega arith)

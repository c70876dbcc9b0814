-- ===== src/Repository/Clause/Page.antt =====
-- The offsets of pages.
use hellnet_lib_database.Prelude.{ℕ, suc, ◌*◌, ◌<◌, ◌≡◌, ap, ◌∙◌, arith}
use hellnet_lib_database.Prelude.Int.{int64_small, mul_pos, pos, ◌-ℤ◌, ◌*ℤ◌, int64}
use hellnet_lib_database.Repository.Clause.{not_negative, page_offset}

abbrev pub max_int : ℕ
max_int = 9223372036854775808

sub_one : (k : ℕ) → pos (suc k) -ℤ pos 1 ≡ pos k
sub_one k = ground arith

not_negative-pos : (n : ℕ) → not_negative (pos n) ≡ pos n
not_negative-pos n = ground arith

-- Page k + 1 begins behind the k pages before it, as long as that is an int: so consecutive pages
-- leave no row out and show none twice.
page_offset-suc :
    (k s : ℕ) → suc k < max_int → k * s < max_int → page_offset (pos (suc k)) (pos s) ≡ pos (k * s)
unfolding page_offset
page_offset-suc k s h l =
    ap (λ x. not_negative (int64 (int64 x *ℤ pos s))) (sub_one k)
    ∙ ap (λ x. not_negative (int64 (x *ℤ pos s))) (int64_small k (omega arith))
    ∙ ap (λ x. not_negative (int64 x)) (mul_pos k s)
    ∙ ap not_negative (int64_small (k * s) l)
    ∙ not_negative-pos (k * s)

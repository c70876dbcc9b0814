-- ===== src/Results/Next.antt =====
-- When a page says that another follows.
use hellnet_lib_database.Prelude.{ℕ, suc, ◌*◌, ◌<◌, ◌≡◌, ap, ◌∙◌, arith, ltb, true}
use hellnet_lib_database.Prelude.Int.{int64_small, mul_pos, ℤ, pos, negsuc, ltb_ℤ, ◌*ℤ◌, int64}
use hellnet_lib_database.Results.{PageResult, has_next_page}

mul_zero : (z : ℤ) → z *ℤ pos 0 ≡ pos 0
mul_zero (pos n) = ground arith
mul_zero (negsuc n) = ground arith

ltb_ℤ-pos : (a b : ℕ) → ltb_ℤ (pos a) (pos b) ≡ ltb a b
ltb_ℤ-pos a b = ground arith

zero_below : (n : ℕ) → ltb 0 (suc n) ≡ true
zero_below n = ground arith

-- Page k of s rows has a next page exactly if more rows than the k * s of the pages up to it were
-- counted, as long as that product is an int.
has_next_page_lem :
    {T : Type 0} (p : PageResult T) (k s n : ℕ)
    → p.page ≡ pos k
    → p.page_size ≡ pos s
    → p.total_count ≡ pos n
    → k * s < 9223372036854775808
    → has_next_page p ≡ ltb (k * s) n
unfolding has_next_page
has_next_page_lem p k s n a b c h =
    ap (λ x. ltb_ℤ x p.total_count)
      (ap (λ x. int64 (x *ℤ p.page_size)) a
        ∙ ap (λ y. int64 (pos k *ℤ y)) b
        ∙ ap int64 (mul_pos k s)
        ∙ int64_small (k * s) h)
    ∙ ap (ltb_ℤ (pos (k * s))) c
    ∙ ltb_ℤ-pos (k * s) n

-- A page without a limit holds every row, and still says that another page follows whenever a row
-- was counted.
unlimited_has_next :
    {T : Type 0} (p : PageResult T) (n : ℕ)
    → p.page_size ≡ pos 0
    → p.total_count ≡ pos (suc n)
    → has_next_page p ≡ true
unfolding has_next_page
unlimited_has_next p n a b =
    ap (λ x. ltb_ℤ x p.total_count) (ap (λ y. int64 (p.page *ℤ y)) a ∙ ap int64 (mul_zero p.page))
    ∙ ap (ltb_ℤ (pos 0)) b
    ∙ ltb_ℤ-pos 0 (suc n)
    ∙ zero_below n

-- ===== src/Results.antt =====
-- Result and PageResult of database/results.go.
pub mod Next
use hellnet_lib_database.Prelude.{Bool, true, false, Option, none, some, List}
use hellnet_lib_database.Errors.{Err}
use hellnet_lib_database.Prelude.Int.{ℤ, ltb_ℤ, ◌*ℤ◌, int64}

pub record PageResult (T : Type 0) : Type 0 where
  pub items : List T
  pub total_count : ℤ
  pub page : ℤ
  pub page_size : ℤ

-- HasNextPage, where `int` has 64 bits
unfoldable pub has_next_page : {T : Type 0} → PageResult T → Bool
has_next_page p = ltb_ℤ (int64 (p.page *ℤ p.page_size)) p.total_count

-- Result, with Success, Failure and IsSuccess
pub record Result (T : Type 0) : Type 0 where
  pub data_value : T
  pub err : Option Err
  pub duration : ℤ

unfoldable pub success : {T : Type 0} → T → ℤ → Result T
success data_value duration = record { data_value = data_value; err = none; duration = duration }

unfoldable pub failure : {T : Type 0} → T → Err → ℤ → Result T
failure zero_value e duration = record {
  data_value = zero_value;
  err = some e;
  duration = duration;
}

unfoldable pub is_success : {T : Type 0} → Result T → Bool
is_success r = elim r.err [ none ↦ true | some e ↦ false ]

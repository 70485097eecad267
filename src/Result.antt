-- ===== src/Result.antt =====
-- Go's `(value, error)` pairs. Each error of the package is a constructor.
use etherpad_go.Prelude.{◌≡◌, refl}

pub data Error : Type 0 where
  invalid_op_string no_valid_header : Error
  not_enough_chars : Error
  chars_lt_lines line_count_mismatch unexpected_opcode : Error
  mismatched_length mismatched_compose mismatched_follow : Error
  wrong_newlines invalid_op_type : Error
  old_pos_overflow bank_too_short bank_newlines bank_no_final_newline new_len_exceeded : Error
  unknown_opcode wrong_claimed_length excess_bank not_canonical : Error
  negative_start negative_ndel : Error
  attrib_not_found negative_attrib invalid_attrib_char : Error
  unknown_prop invalid_prop missing_sheet no_payload negative_coord invalid_bounds : Error
  negative_index bad_count no_name long_name bad_axis bad_size bad_freeze unknown_type : Error
  base_rev_range : Error

-- `panic` is a run-time panic of Go. `stuck` is no Go value: the model's fuel ran out.
pub data Result {ℓ} (A : Type ℓ) : Type ℓ where
  ok : A → Result A
  err : Error → Result A
  panic : Result A
  stuck : Result A

-- What follows a value; anything else ends the computation.
infixl 5 ◌>>=◌ ◌>>◌
abbrev pub ◌>>=◌ {α β} : {X : Type α} {Y : Type β} → Result X → (X → Result Y) → Result Y
stuck >>= next = stuck
panic >>= next = panic
err e >>= next = err e
ok x >>= next = next x

abbrev pub ◌>>◌ {β} : {Y : Type β} → Result (Unit {0}) → Result Y → Result Y
check >> next = check >>= λ _. next

-- A bind that gives a value: its first part gave one, from which the second made it.
pub >>=-eq-ok {α β} :
    {X : Type α} {Y : Type β} (first : Result X) (next : X → Result Y) {y : Y}
    → (first >>= next) ≡ ok y
    → (x : X) × (first ≡ ok x) × (next x ≡ ok y)
>>=-eq-ok stuck next e = cc
>>=-eq-ok panic next e = cc
>>=-eq-ok (err _) next e = cc
>>=-eq-ok (ok x) next e = (x, refl, e)

pub >>=-assoc {α β γ} :
    {X : Type α} {Y : Type β} {Z : Type γ} (m : Result X) (f : X → Result Y) (g : Y → Result Z)
    → (m >>= f >>= g) ≡ (m >>= λ x. f x >>= g)
>>=-assoc stuck f g = refl
>>=-assoc panic f g = refl
>>=-assoc (err _) f g = refl
>>=-assoc (ok x) f g = refl

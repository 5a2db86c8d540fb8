-- ===== src/Admin.antt =====
-- What the administrator's commands of server-package/crates/frp-game-server/src/app.rs share: the
-- prompts, the checks of their answers and the choice of a user. The lines that are typed are a
-- list, which a prompt shortens; `rand` is a parameter.
pub mod Commands
pub mod Stored
pub mod Passwords
pub mod Changed
pub mod Setup
pub mod Choice
pub mod Added
pub mod Tests
use orange_frp.Prelude.{
  ℕ, ◌+◌, ◌-◌, ◌*◌, ◌^◌, min, Bool, not, ◌&&◌, ◌||◌, Option, none, some, List, [], ◌∷◌, ltb, leb,
  if◌then◌else◌, ◌==◌, nat_eq, list_eq, pair_eq, length, any, Result, ok, err, ◌>>=◌, ◌>>◌, fail_if,
  Text, is_empty, is_ascii_digit, is_control, trim,
}
use orange_frp.Tunnel.{max_tunnel_limit}
use orange_frp.Config.{
  ServerConfig, Error, invalid_account, invalid_password, limit_too_large, input_ended, bad_number,
  number_too_large, i64_max, u64_max,
}
use orange_frp.Floats.{Float}

-- An answer, and the lines that are left.
unfoldable pub prompt_non_empty : List Text → Result Error (Text × List Text)
prompt_non_empty [] = err input_ended
prompt_non_empty (line ∷ lines) =
    let rest = prompt_non_empty lines in
    if is_empty (trim line) then rest else ok (trim line, lines)

-- With a confirmation; the lines are not trimmed.
unfoldable pub prompt_password : List Text → Result Error (Text × List Text)
prompt_password [] = err input_ended
prompt_password (password ∷ []) = err input_ended
prompt_password (password ∷ repeated ∷ lines) =
    let after_one = prompt_password (repeated ∷ lines) in
    let after_two = prompt_password lines in
    if is_empty password
    then after_one
    else if password == repeated
    then ok (password, lines)
    else after_two

-- Digits with the value of those before them.
unfoldable pub digits_value : ℕ → Text → Option ℕ
digits_value acc [] = some acc
digits_value acc (c ∷ cs) =
    if is_ascii_digit c then digits_value (10 * acc + (c - b'0')) cs else none

-- `str::parse` of an unsigned integer up to a bound: one sign is allowed, no digits are not.
unfoldable pub parse_unsigned : ℕ → Text → Option ℕ
unfolding digits_value
parse_unsigned limit text =
    let digits : Text = elim text [ [] ↦ [] | c ∷ cs ↦ if c == b'+' then cs else c ∷ cs ] in
    if is_empty digits then none else elim (digits_value 0 digits) [
      | none ↦ none
      | some n ↦ if leb n limit then some n else none
    ]

abbrev pub u32_max : ℕ
u32_max = 2 ^ 32 - 1

unfoldable pub prompt_u32 : ℕ → List Text → Result Error (ℕ × List Text)
unfolding parse_unsigned
prompt_u32 default [] = err input_ended
prompt_u32 default (line ∷ lines) =
    let rest = prompt_u32 default lines in
    if is_empty (trim line)
    then ok (default, lines)
    else elim (parse_unsigned u32_max (trim line)) [
      | some number ↦ ok (number, lines)
      | none ↦ rest
    ]

unfoldable pub validate_account : Text → Result Error (Unit {0})
validate_account account =
    fail_if (ltb (length account) 1 || ltb 64 (length account) || any is_control account)
      invalid_account

unfoldable pub validate_password : Text → Result Error (Unit {0})
validate_password password =
    fail_if (ltb (length password) 8 || ltb 128 (length password) || any is_control password)
      invalid_password

unfoldable pub validate_tunnel_limit : ℕ → Result Error (Unit {0})
validate_tunnel_limit limit = fail_if (ltb max_tunnel_limit limit) limit_too_large

unfoldable pub account_exists : ServerConfig → Text → Bool
account_exists config account = any (λ u. u.account == account) config.users

-- Asks again while the answer is no number or too large.
unfoldable pub prompt_tunnel_limit : ℕ → List Text → Result Error (ℕ × List Text)
unfolding parse_unsigned validate_tunnel_limit
prompt_tunnel_limit default [] = err input_ended
prompt_tunnel_limit default (line ∷ lines) =
    let rest = prompt_tunnel_limit default lines in
    let answer =
      if is_empty (trim line) then some default else parse_unsigned u32_max (trim line) in
    elim answer [
      | none ↦ rest
      | some limit ↦ elim (validate_tunnel_limit limit) [
        | err error ↦ rest
        | ok done ↦ ok (limit, lines)
      ]
    ]

-- `iter().position`.
abbrev pub position {ℓ} : {A : Type ℓ} → (A → Bool) → List A → Option ℕ
position p [] = none
position p (x ∷ xs) =
    let rest = position p xs in
    if p x then some 0 else elim rest [ none ↦ none | some n ↦ some (n + 1) ]

-- An account, or the number of a user in the list that is shown.
unfoldable pub choose_user : ServerConfig → Text → Option ℕ
unfolding parse_unsigned
choose_user config choice = elim (position (λ u. u.account == choice) config.users) [
  | some index ↦ some index
  | none ↦ elim (parse_unsigned u64_max choice) [
    | none ↦ none
    | some index ↦ if leb 1 index && leb index (length config.users) then some (index - 1) else none
  ]
]

unfoldable pub select_user_index : ServerConfig → List Text → Result Error (Option ℕ × List Text)
unfolding choose_user prompt_non_empty
select_user_index config lines =
    if is_empty config.users
    then ok (none, lines)
    else do (choice, rest) ← prompt_non_empty lines; ok (choose_user config choice, rest)

unfoldable pub resolve_user_index :
    ServerConfig → Option Text → List Text → Result Error (Option ℕ × List Text)
unfolding select_user_index
resolve_user_index config none lines = select_user_index config lines
resolve_user_index config (some account) lines =
    ok (position (λ u. u.account == account) config.users, lines)

-- `parse` is `str::parse`.
module _ (fl : Float) (is_finite : Float.F fl → Bool) (parse : Text → Option (Float.F fl)) where
  open fl use {F, of_ℕ, le}

  unfoldable pub prompt_f64 : F → List Text → Result Error (F × List Text)
  prompt_f64 default [] = err input_ended
  prompt_f64 default (line ∷ lines) =
      let rest = prompt_f64 default lines in
      if is_empty (trim line) then ok (default, lines) else elim (parse (trim line)) [
        | none ↦ rest
        | some number ↦ if is_finite number && le (of_ℕ 0) number then ok (number, lines) else rest
      ]

module _ (fl : Float) (is_finite : Float.F fl → Bool) (round : Float.F fl → ℕ) where
  open fl use {F, of_ℕ, mul, lt}

  -- `as u64` stops at the largest number.
  unfoldable pub gb_to_bytes : F → Result Error ℕ
  gb_to_bytes gb = do
    fail_if (not (is_finite gb) || lt gb (of_ℕ 0)) bad_number
    fail_if (lt (of_ℕ i64_max) (mul (mul (mul gb (of_ℕ 1024)) (of_ℕ 1024)) (of_ℕ 1024)))
        number_too_large
    ok (min (round (mul (mul (mul gb (of_ℕ 1024)) (of_ℕ 1024)) (of_ℕ 1024))) u64_max)

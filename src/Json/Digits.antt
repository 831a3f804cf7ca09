-- ===== src/Json/Digits.antt =====
-- Reading a text of digits.
use balance_tracker.Prelude.{ℕ, ◌+◌, ◌-◌, ◌*◌, ◌<◌, ◌≤◌, false, some, [], ◌∷◌, ◌≡◌, refl, arith}
use balance_tracker.Prelude.Lists.{All}
use balance_tracker.Prelude.Rows.{All-mono}
use balance_tracker.Prelude.Int.{pos}
use balance_tracker.Prelude.Text.{Text, is_space, is_empty}
use balance_tracker.Prelude.Text.Strip.{strip_none}
use balance_tracker.Json.{parse_int, read_signed, read_digits}

-- The number that a text of digits denotes.
unfoldable pub read_onto : ℕ → Text → ℕ
read_onto n [] = n
read_onto n (c ∷ s) = read_onto (n * 10 + (c - 48)) s

abbrev pub IsDigit : ℕ → Type 0
IsDigit c = (48 ≤ c) × (c < 58)

read_digits_lem : (n : ℕ) (s : Text) → All IsDigit s → read_digits false n s ≡ some (read_onto n s)
unfolding read_digits read_onto
read_digits_lem n [] h = refl
read_digits_lem n (c ∷ s) h = ground (arith, h.0, read_digits_lem (n * 10 + (c - 48)) s h.1)

digit_no_space : (c : ℕ) → IsDigit c → is_space c ≡ false
digit_no_space c h = ground arith

read_signed_lem :
    (s : Text) → All IsDigit s → is_empty s ≡ false → read_signed s ≡ some (pos (read_onto 0 s))
unfolding read_signed read_digits read_onto
read_signed_lem [] h e = cc
read_signed_lem (c ∷ s) h e = ground (arith, h.0, read_digits_lem (0 * 10 + (c - 48)) s h.1)

pub parse_int_digits :
    (s : Text) → All IsDigit s → is_empty s ≡ false → parse_int s ≡ some (pos (read_onto 0 s))
unfolding parse_int
parse_int_digits s h e = rw (strip_none s (All-mono digit_no_space s h)) (read_signed_lem s h e)

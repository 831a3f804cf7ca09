-- ===== src/Json.antt =====
-- JSON values, as the JSON columns and payload dictionaries of the services hold them, and the
-- conversions of Python's standard library that the services apply to them. A number is an
-- integer, or a decimal `m / 10 ^ e`.
pub mod Digits
use balance_tracker.Prelude.{
  ℕ, zero, suc, ◌+◌, ◌-◌, ◌*◌, ◌/◌, Bool, true, false, ◌&&◌, not, Option, none, some, [], ◌∷◌, leb,
  ◌==◌, if◌then◌else◌,
}
use balance_tracker.Prelude.Int.{ℤ, pos, negsuc}
use balance_tracker.Prelude.Text.{Text, text_eq, strip, is_empty}
use Prim.Native.Nat.{◌^◌}

mutual
  pub data Json : Type 0 where
    null : Json
    bool : Bool → Json
    int : ℤ → Json
    decimal : ℤ → ℕ → Json
    text : Text → Json
    arr : Items → Json
    obj : Fields → Json

  pub data Items : Type 0 where
    nil : Items
    cons : Json → Items → Items

  pub data Fields : Type 0 where
    end : Fields
    field : Text → Json → Fields → Fields

-- `d.get(k)`; a key that is absent is told from one that holds null, for `k in d`.
unfoldable pub lookup : Text → Fields → Option Json
lookup k end = none
lookup k (field j v d) = let rest = lookup k d in if text_eq k j then some v else rest

-- `d.get(k)`
abbrev pub get : Text → Fields → Json
get k d = elim (lookup k d) [ none ↦ null | some v ↦ v ]

-- `d if isinstance(d, dict) else None`
abbrev pub as_dict : Json → Option Fields
as_dict (obj d) = some d
as_dict _ = none

is_zero : ℤ → Bool
is_zero (pos zero) = true
is_zero _ = false

-- `bool(v)`
unfoldable pub truthy : Json → Bool
unfolding is_zero
truthy null = false
truthy (bool b) = b
truthy (int i) = not (is_zero i)
truthy (decimal m e) = not (is_zero m)
truthy (text s) = not (is_empty s)
truthy (arr nil) = false
truthy (arr (cons _ _)) = true
truthy (obj end) = false
truthy (obj (field _ _ _)) = true

-- `a or b`
abbrev pub or_value : Json → Json → Json
or_value a b = if truthy a then a else b

-- The digits of an integer literal, with single underscores between digits; `due` says that a
-- digit must come next.
read_digits : Bool → ℕ → Text → Option ℕ
read_digits true n [] = none
read_digits false n [] = some n
read_digits due n (c ∷ s) =
    let digit = read_digits false (n * 10 + (c - 48)) s in
    let underscore = read_digits true n s in
    if leb 48 c && leb c 57 then digit else if c == 95 && not due then underscore else none

negated : ℕ → ℤ
negated zero = pos zero
negated (suc n) = negsuc n

read_signed : Text → Option ℤ
unfolding read_digits negated
read_signed [] = none
read_signed (c ∷ s) =
    if c == 45
    then elim (read_digits true 0 s) [ none ↦ none | some n ↦ some (negated n) ]
    else if c == 43
    then elim (read_digits true 0 s) [ none ↦ none | some n ↦ some (pos n) ]
    else elim (read_digits true 0 (c ∷ s)) [ none ↦ none | some n ↦ some (pos n) ]

-- `int(s)`
unfoldable pub parse_int : Text → Option ℤ
unfolding read_signed
parse_int s = read_signed (strip s)

-- Truncation toward zero.
truncate : ℤ → ℕ → ℤ
unfolding negated
truncate (pos m) e = pos (m / 10 ^ e)
truncate (negsuc m) e = negated (suc m / 10 ^ e)

-- `int(v)`, where `none` is a TypeError or a ValueError.
unfoldable pub int_of : Json → Option ℤ
unfolding parse_int truncate
int_of null = none
int_of (bool true) = some (pos 1)
int_of (bool false) = some (pos 0)
int_of (int i) = some i
int_of (decimal m e) = some (truncate m e)
int_of (text s) = parse_int s
int_of (arr _) = none
int_of (obj _) = none

-- `d[k] = v`
unfoldable pub put : Text → Json → Fields → Fields
put k v end = field k v end
put k v (field j w d) = let rest = put k v d in if text_eq k j then field j v d else field j w rest

-- `d.update(e)`, where `e` has each key once
unfoldable pub update : Fields → Fields → Fields
unfolding put
update d end = d
update d (field k v e) = update (put k v d) e

abbrev pub text_or_null : Option Text → Json
text_or_null none = null
text_or_null (some s) = text s

-- ===== src/SyncJob/Key/Distinct.antt =====
-- Two requests share a deduplication key only if they ask for the same thing.
use balance_tracker.Prelude.{
  ℕ, zero, suc, ◌+◌, ◌/◌, ◌%◌, ◌<◌, ◌≡◌, ◌≢◌, refl, sym, ap, subst, ◌∙◌, inl, inr, Option, none,
  some, [], ◌∷◌, ◌++◌, arith, false, ltb, Bool-cases, or_else,
}
use balance_tracker.Prelude.Lists.{length, length-append, All}
use balance_tracker.Prelude.Rows.{All-mono}
use balance_tracker.Prelude.Text.{Text, codes, is_empty}
use balance_tracker.Json.{Fields, end}
use balance_tracker.Json.Digits.{read_onto, IsDigit}
use balance_tracker.SyncJob.Key.{digits_onto, show_nat, integration_marker, build_dedupe_key}

read_onto-digits_onto :
    (f n : ℕ) (acc : Text) → n < f → read_onto 0 (digits_onto f n acc) ≡ read_onto n acc
unfolding digits_onto read_onto
read_onto-digits_onto zero n acc h = absurd (omega arith)
read_onto-digits_onto (suc f) n acc h = elim (Bool-cases (ltb n 10)) [
  | inl e ↦ rw e (ap (λ k. read_onto k acc) (omega arith))
  | inr e ↦ rw e (
      read_onto-digits_onto f (n / 10) ((48 + n % 10) ∷ acc) (ground arith)
      ∙ ap (λ k. read_onto k acc) (omega arith))
]

-- `str` of a number can be read back.
pub read-show_nat : (n : ℕ) → read_onto 0 (show_nat n) ≡ n
unfolding show_nat read_onto
read-show_nat n = read_onto-digits_onto (suc n) n [] (omega arith)

digits_onto-IsDigit : (f n : ℕ) (acc : Text) → All IsDigit acc → All IsDigit (digits_onto f n acc)
unfolding digits_onto
digits_onto-IsDigit zero n acc h = h
digits_onto-IsDigit (suc f) n acc h = elim (Bool-cases (ltb n 10)) [
  | inl e ↦ rw e ((omega arith, ground arith), h)
  | inr e ↦
      rw e (digits_onto-IsDigit f (n / 10) ((48 + n % 10) ∷ acc) ((omega arith, omega arith), h))
]

pub show_nat-IsDigit : (n : ℕ) → All IsDigit (show_nat n)
unfolding show_nat
show_nat-IsDigit n = digits_onto-IsDigit (suc n) n [] tt

digits_onto_nonempty : (f n c : ℕ) (acc : Text) → is_empty (digits_onto f n (c ∷ acc)) ≡ false
unfolding digits_onto
digits_onto_nonempty zero n c acc = refl
digits_onto_nonempty (suc f) n c acc =
    ground (arith, digits_onto_nonempty f (n / 10) (48 + n % 10) (c ∷ acc))

pub show_nat_nonempty : (n : ℕ) → is_empty (show_nat n) ≡ false
unfolding show_nat digits_onto
show_nat_nonempty n = ground (arith, digits_onto_nonempty n (n / 10) (48 + n % 10) [])

abbrev NoColon : ℕ → Type 0
NoColon c = c ≢ 58

show_nat-NoColon : (n : ℕ) → All NoColon (show_nat n)
unfolding show_nat
show_nat-NoColon n =
    All-mono (λ c h. omega arith) (show_nat n) (digits_onto-IsDigit (suc n) n [] tt)

integration_marker-NoColon : (i : Option ℕ) → All NoColon (integration_marker i)
unfolding integration_marker
integration_marker-NoColon none = omega arith
integration_marker-NoColon (some n) = show_nat-NoColon n

-- Two texts with no colon, each before a colon, are told apart by what they make.
split_at_colon :
    (xs ys r t : Text)
    → All NoColon xs
    → All NoColon ys
    → xs ++ (58 ∷ r) ≡ ys ++ (58 ∷ t)
    → (xs ≡ ys) × (r ≡ t)
split_at_colon [] [] r t hx hy e = (refl, cc)
split_at_colon [] (y ∷ ys) r t hx hy e = let q : 58 ≡ y = cc in absurd (hy.0 (sym q))
split_at_colon (x ∷ xs) [] r t hx hy e = let q : x ≡ 58 = cc in absurd (hx.0 q)
split_at_colon (x ∷ xs) (y ∷ ys) r t hx hy e =
    let q : x ≡ y = cc in
    let tails : xs ++ (58 ∷ r) ≡ ys ++ (58 ∷ t) = cc in
    let (a, b) = split_at_colon xs ys r t hx.1 hy.1 tails in (cc, b)

-- Two texts with tails of one length.
split_at_end :
    (xs ys r t : Text) → length r ≡ length t → xs ++ (58 ∷ r) ≡ ys ++ (58 ∷ t) → (xs ≡ ys) × (r ≡ t)
split_at_end [] [] r t l e = (refl, cc)
split_at_end [] (y ∷ ys) r t l e =
    absurd (omega (arith, ap (length {A = ℕ}) e, length-append {0} ys (58 ∷ t)))
split_at_end (x ∷ xs) [] r t l e =
    absurd (omega (arith, ap (length {A = ℕ}) e, length-append {0} xs (58 ∷ r)))
split_at_end (x ∷ xs) (y ∷ ys) r t l e =
    let q : x ≡ y = cc in
    let tails : xs ++ (58 ∷ r) ≡ ys ++ (58 ∷ t) = cc in
    let (a, b) = split_at_end xs ys r t l tails in (cc, b)

show_nat_injective : (m n : ℕ) → show_nat m ≡ show_nat n → m ≡ n
show_nat_injective m n e = sym (read-show_nat m) ∙ ap (read_onto 0) e ∙ read-show_nat n

show_nat-ne-null : (n : ℕ) → show_nat n ≢ codes "null"
show_nat-ne-null n e =
    let digits = digits_onto-IsDigit (suc n) n [] tt in
    let h : All IsDigit (codes "null") = subst (All IsDigit) e (unfold show_nat in digits) in
    omega arith

integration_marker_injective :
    (i j : Option ℕ) → integration_marker i ≡ integration_marker j → i ≡ j
unfolding integration_marker
integration_marker_injective none none e = refl
integration_marker_injective none (some n) e = absurd (show_nat-ne-null n (sym e))
integration_marker_injective (some m) none e = absurd (show_nat-ne-null m e)
integration_marker_injective (some m) (some n) e = ap some (show_nat_injective m n e)

-- With digests of one length, two requests have the same key only if they name the same
-- organisation, integration and job type, and their payloads have the same digest.
pub build_dedupe_key_injective :
    (fingerprint : Fields → Text) (org org' : ℕ) (i i' : Option ℕ) (kind kind' : Text)
    (payload payload' : Option Fields)
    → ((d e : Fields) → length (fingerprint d) ≡ length (fingerprint e))
    → build_dedupe_key fingerprint org i kind payload
      ≡ build_dedupe_key fingerprint org' i' kind' payload'
    → (org ≡ org')
      × (i ≡ i')
      × (kind ≡ kind')
      × (fingerprint (or_else payload end) ≡ fingerprint (or_else payload' end))
unfolding build_dedupe_key
build_dedupe_key_injective fingerprint org org' i i' kind kind' payload payload' digests e =
    let (a, e₁) =
      split_at_colon (show_nat org) (show_nat org') _ _ (show_nat-NoColon org)
        (show_nat-NoColon org') e in
    let (b, e₂) =
      split_at_colon (integration_marker i) (integration_marker i') _ _
        (integration_marker-NoColon i) (integration_marker-NoColon i') e₁ in
    let (c, d) =
      split_at_end kind kind' _ _ (digests (or_else payload end) (or_else payload' end)) e₂ in
    (show_nat_injective org org' a, integration_marker_injective i i' b, c, d)

-- ===== src/Billing/PromoLimits.antt =====
-- The limits of promo codes.
use balance_tracker.Prelude.{
  ℕ, ◌+◌, ◌≤◌, ◌≡◌, refl, sym, subst, inl, inr, Bool, true, false, Option, none, some, List, [],
  ◌∷◌, Memᴰ, arith, ◌==◌, Bool-cases, if◌then◌else◌,
}
use balance_tracker.Prelude.Lists.{update_where, All, count_if}
use balance_tracker.Prelude.Rows.{find?-mem, count_if-update_where_le}
use balance_tracker.Prelude.UniqueRows.{unique_row}
use balance_tracker.Prelude.Int.{ℤ, pos, ◌≤ℤ◌}
use balance_tracker.Prelude.Text.{Text}
use balance_tracker.Billing.Store.{PromoCode, PromoRedemption, Db}
use balance_tracker.Billing.Promo.{
  has_code, reaches, redemption_of, same_promo, count_redemption, normalize_code, redeem_code,
}
use native.Mathlib.Nat.{le_trans}
use balance_tracker.Billing.PromoLaws.{refusal-none, redeem_code_cases}

abbrev AtMost : Option ℤ → ℕ → Type 0
AtMost none n = Unit
AtMost (some m) n = pos n ≤ℤ m

abbrev redeems : ℕ → PromoRedemption → Bool
redeems i r = r.promo_code_id == i

-- How often a code was redeemed, by the rows of the redemptions.
abbrev pub times_redeemed : PromoCode → List PromoRedemption → ℕ
times_redeemed p rows = count_if (redeems p.id) rows

-- The counter of the code is the number of its redemptions, and these are no more than its limit,
-- where it has one.
abbrev pub IsWithin : List PromoRedemption → PromoCode → Type 0
IsWithin rows p =
    (times_redeemed p rows ≡ p.redeemed_count) × AtMost p.max_redemptions (times_redeemed p rows)

-- Each code has a number of its own, its counter is right, and no code was redeemed more often than
-- its limit allows.
pub record HasLimits (d : Db) : Type 0 where
  pub unique_id : (i : ℕ) → count_if (same_promo i) d.promos ≤ 1
  pub within : All (IsWithin d.redemptions) d.promos

counted_within : (o : Option ℤ) (n : ℕ) → reaches o n ≡ false → AtMost o (n + 1)
unfolding reaches
counted_within none n h = tt
counted_within (some m) n h = ground arith

-- A code after it was counted, when the redemptions gained a row of a code.
counted-IsWithin :
    (x : PromoRedemption) (rows : List PromoRedemption) (q : PromoCode)
    → (x.promo_code_id == q.id) ≡ true
    → reaches q.max_redemptions q.redeemed_count ≡ false
    → IsWithin rows q
    → IsWithin (x ∷ rows) (count_redemption q)
counted-IsWithin x rows q e free (n, _) =
    let m : times_redeemed q (x ∷ rows) ≡ q.redeemed_count + 1 = rw e (omega (arith, n)) in
    (m, rw m (counted_within q.max_redemptions q.redeemed_count free))

other-IsWithin :
    (x : PromoRedemption) (rows : List PromoRedemption) (q : PromoCode)
    → (x.promo_code_id == q.id) ≡ false
    → IsWithin rows q
    → IsWithin (x ∷ rows) q
other-IsWithin x rows q e h = rw e h

counted_rows :
    (x : PromoRedemption) (rows : List PromoRedemption) (promos : List PromoCode)
    → ((q : PromoCode)
        → Memᴰ q promos
        → same_promo x.promo_code_id q ≡ true
        → reaches q.max_redemptions q.redeemed_count ≡ false)
    → All (IsWithin rows) promos
    → All (IsWithin (x ∷ rows)) (update_where (same_promo x.promo_code_id) count_redemption promos)
counted_rows x rows [] free h = tt
counted_rows x rows (q ∷ promos) free h =
    let rest = counted_rows x rows promos (λ y m. free y (Memᴰ.tail m)) h.1 in
    elim (Bool-cases (q.id == x.promo_code_id)) [
      | inl t ↦
          let a = counted-IsWithin x rows q (ground arith) (free q (Memᴰ.head refl) t) h.0 in
          (subst (λ b. IsWithin (x ∷ rows) (if b then count_redemption q else q)) (sym t) a, rest)
      | inr t ↦
          let a = other-IsWithin x rows q (ground arith) h.0 in
          (subst (λ b. IsWithin (x ∷ rows) (if b then count_redemption q else q)) (sym t) a, rest)
    ]

counted-HasLimits :
    (p : PromoCode) (d d' : Db) (x : PromoRedemption)
    → HasLimits d
    → Memᴰ p d.promos
    → reaches p.max_redemptions p.redeemed_count ≡ false
    → x.promo_code_id ≡ p.id
    → d'.redemptions ≡ x ∷ d.redemptions
    → d'.promos ≡ update_where (same_promo x.promo_code_id) count_redemption d.promos
    → HasLimits d'
counted-HasLimits p d d' x v m free i r e = record {
  unique_id = λ n. rw e (
      le_trans
        (count_if-update_where_le (same_promo n) (same_promo x.promo_code_id) count_redemption
          d.promos (λ y _ h. h))
        (v.unique_id n));
  within =
      subst (λ rows. All (IsWithin rows) d'.promos) (sym r)
        (subst (All (IsWithin (x ∷ d.redemptions))) (sym e) (
          counted_rows x d.redemptions d.promos
            (λ q n t.
              let same =
                unique_row (same_promo x.promo_code_id) p q d.promos (v.unique_id x.promo_code_id) m
                  n (ground arith) t in
              subst (λ y. reaches y.max_redemptions y.redeemed_count ≡ false) same free)
            v.within));
}

-- If each code has a number of its own, its counter is the number of its redemptions, and these are
-- no more than its limit, the same holds after a call that redeems a code, whether it returns or
-- raises.
pub redeem_code-HasLimits :
    (local_time : ℕ → ℕ) (org : ℕ) (user : Option ℕ) (raw : Text) (now : ℕ) (d : Db)
    → HasLimits d
    → HasLimits (redeem_code local_time org user raw now d).1
redeem_code-HasLimits local_time org user raw now d v =
    elim (redeem_code_cases local_time org user raw now d) [
      | inr (y, e, k) ↦ record {
        unique_id = λ i. rw k.promos (v.unique_id i);
        within = rw k.redemptions (rw k.promos v.within);
      }
      | inl (p, snapshot, _, f, free, reds, promos, _) ↦
          let d' = (redeem_code local_time org user raw now d).1 in
          counted-HasLimits p d d' (redemption_of p org user snapshot) v
            (find?-mem (has_code (normalize_code raw)) d.promos p f)
            (refusal-none local_time p org now d free).0 refl reds promos
    ]

-- ===== src/Billing/PromoLaws.antt =====
-- Redeeming a promo code.
use balance_tracker.Prelude.{
  ℕ, ◌≡◌, refl, sym, ap, ◌∙◌, inl, inr, ◌⊎◌, Bool, true, false, Option, none, some, ◌∷◌, arith,
  ◌==◌, ==_refl, Bool-cases, Option-cases, if◌then◌else◌,
}
use balance_tracker.Prelude.Lists.{any, find?, update_where}
use balance_tracker.Prelude.Rows.{find?-update_where}
use balance_tracker.Prelude.Text.{Text, codes, text_eq_refl, is_empty}
use balance_tracker.Json.{Fields}
use balance_tracker.Billing.Store.{PromoCode, PromoRedemption, Db, Result, ok, err, Error}
use balance_tracker.Billing.Promo.{
  has_code, applied_to, reaches, limit_reached, reward, redemption_of, redeemed, same_promo,
  count_redemption, normalize_code, refusal, redeem_checked, redeem_found, redeem_code,
}
use balance_tracker.Billing.Invariant.{IsValid, same_tables-IsValid}
use balance_tracker.Billing.PromoFrame.{Kept, Kept-same, reward-Kept}

module _ (local_time : ℕ → ℕ) (org : ℕ) (user : Option ℕ) (raw : Text) (now : ℕ) (d : Db) where
  -- The code was found, passed the checks, and its redemption and counter are written.
  abbrev pub Redeemed : Result PromoRedemption → Db → Type 0
  Redeemed r d' =
      (p : PromoCode) × (snapshot : Fields) × (r ≡ ok (redemption_of p org user snapshot))
      × (find? (has_code (normalize_code raw)) d.promos ≡ some p)
      × (refusal local_time p org now d ≡ none)
      × (d'.redemptions ≡ redemption_of p org user snapshot ∷ d.redemptions)
      × (d'.promos ≡ update_where (same_promo p.id) count_redemption d.promos)
      × (IsValid d → IsValid d')

  abbrev pub Refused : Result PromoRedemption → Db → Type 0
  Refused r d' = (x : Error) × (r ≡ err x) × Kept d d'

  redeemed_lem :
      (p : PromoCode) (r : Result Fields) (e : Db)
      → find? (has_code (normalize_code raw)) d.promos ≡ some p
      → refusal local_time p org now d ≡ none
      → Kept d e
      → let (s, d') = redeemed p org user r e in Redeemed s d' ⊎ Refused s d'
  unfolding redeemed
  redeemed_lem p (err x) e f c k = inr (x, refl, k)
  redeemed_lem p (ok s) e f c k = inl (
    p,
    s,
    refl,
    f,
    c,
    ap (λ x. redemption_of p org user s ∷ x) k.redemptions,
    ap (update_where (same_promo p.id) count_redemption) k.promos,
    λ v. same_tables-IsValid e _ refl refl (k.valid v).amounts (k.valid v),
  )

  found_lem :
      (o : Option PromoCode)
      → find? (has_code (normalize_code raw)) d.promos ≡ o
      → let (s, d') = redeem_found local_time o org user now d in Redeemed s d' ⊎ Refused s d'
  unfolding redeem_found redeem_checked
  found_lem none f = inr (Error.promo_not_found, refl, Kept-same d)
  found_lem (some p) f = elim (Option-cases (refusal local_time p org now d)) [
    | inl c ↦
        let x = reward p org user now d in
        let k = redeemed_lem p x.0 x.1 f c (reward-Kept p org user now d) in
        rw (c, redeem_checked) k
    | inr (x, c) ↦ rw (c, redeem_checked) (inr (x, refl, Kept-same d))
  ]

  pub redeem_code_cases :
      let (s, d') = redeem_code local_time org user raw now d in Redeemed s d' ⊎ Refused s d'
  unfolding redeem_code
  redeem_code_cases = elim (Bool-cases (is_empty (normalize_code raw))) [
    | inl e ↦ rw e (inr (Error.promo_empty, refl, Kept-same d))
    | inr e ↦ let k = found_lem (find? (has_code (normalize_code raw)) d.promos) refl in rw e k
  ]

-- A code that passes the checks is below its limit, and was not applied by the organisation.
pub refusal-none :
    (local_time : ℕ → ℕ) (p : PromoCode) (org now : ℕ) (d : Db)
    → refusal local_time p org now d ≡ none
    → (reaches p.max_redemptions p.redeemed_count ≡ false)
      × (any (applied_to p.id org) d.redemptions ≡ false)
unfolding refusal limit_reached
refusal-none local_time p org now d h = ground arith

applied_self :
    (p : PromoCode) (org : ℕ) (user : Option ℕ) (snapshot : Fields)
    → applied_to p.id org (redemption_of p org user snapshot) ≡ true
applied_self p org user snapshot =
    rw (==_refl p.id, ==_refl org, text_eq_refl (codes "applied")) refl

same_id : (b : Bool) (p : PromoCode) → (if b then count_redemption p else p).id ≡ p.id
same_id true p = refl
same_id false p = refl

-- Whatever row the code now finds was applied.
now_applied :
    (code : Text) (org : ℕ) (user : Option ℕ) (snapshot : Fields) (d d' : Db) (p q : PromoCode)
    → find? (has_code code) d.promos ≡ some p
    → d'.promos ≡ update_where (same_promo p.id) count_redemption d.promos
    → d'.redemptions ≡ redemption_of p org user snapshot ∷ d.redemptions
    → find? (has_code code) d'.promos ≡ some q
    → any (applied_to q.id org) d'.redemptions ≡ true
now_applied code org user snapshot d d' p q f u r g =
    let same = p.id == p.id in
    let k : find? (has_code code) d'.promos ≡ some (if same then count_redemption p else p) = rw u (
      find?-update_where (has_code code) (same_promo p.id) count_redemption d.promos p (λ x. refl)
        f) in
    let e : q ≡ (if same then count_redemption p else p) = cc (sym g ∙ k) in
    let i : q.id ≡ p.id = ap (λ x. x.id) e ∙ same_id same p in
    rw (r, i, applied_self p org user snapshot) refl

-- An organisation redeems a code once: after a redemption that returned, no later redemption of a
-- raw code that reads the same, by whatever user and at whatever time, returns.
pub redeem_code_once :
    (local_time : ℕ → ℕ) (org : ℕ) (user user' : Option ℕ) (raw raw' : Text) (now now' : ℕ) (d : Db)
    (x : PromoRedemption)
    → (redeem_code local_time org user raw now d).0 ≡ ok x
    → normalize_code raw' ≡ normalize_code raw
    → let d' = (redeem_code local_time org user raw now d).1 in
      (y : Error) × ((redeem_code local_time org user' raw' now' d').0 ≡ err y)
redeem_code_once local_time org user user' raw raw' now now' d x h same =
    elim (redeem_code_cases local_time org user raw now d) [
      | inr (y, e, _) ↦ cc (sym h ∙ e)
      | inl (p, snapshot, _, f, _, reds, promos, _) ↦
          let d' = (redeem_code local_time org user raw now d).1 in
          elim (redeem_code_cases local_time org user' raw' now' d') [
            | inr (y, e, _) ↦ (y, e)
            | inl (q, _, _, g, free, _, _, _) ↦
                let a =
                  now_applied (normalize_code raw) org user snapshot d d' p q f promos reds
                    (rw same at g) in
                cc (sym a ∙ (refusal-none local_time q org now' d' free).1)
          ]
    ]

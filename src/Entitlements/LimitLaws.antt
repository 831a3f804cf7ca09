-- ===== src/Entitlements/LimitLaws.antt =====
-- Integrations that are added with permission stay within the plan.
use balance_tracker.Prelude.{
  ℕ, suc, ◌+◌, ◌≤◌, ◌≡◌, refl, sym, subst, ◌∙◌, inl, inr, ◌⊎◌, Bool, true, false, ◌&&◌, not, Option,
  none, some, List, [], ◌∷◌, arith, ==_refl, Bool-cases, Option-cases, if◌then◌else◌,
}
use balance_tracker.Prelude.Lists.{find?, count_if}
use balance_tracker.Prelude.Text.{Text, codes, text_eq, text_eq_iff}
use balance_tracker.Integration.{Integration}
use balance_tracker.Billing.Store.{Db, active_of}
use balance_tracker.Billing.Plans.{is_plan, get_active_subscription, add_subscription}
use balance_tracker.Billing.Invariant.{
  IsValid, add_subscription-IsValid, get_active_subscription-none, get_active_subscription_sound,
}
use balance_tracker.Prelude.Rows.{count_if_pos}
use balance_tracker.Entitlements.Policy.{Policy}
use balance_tracker.Entitlements.Limits.{
  active_kind, code_is, on_exchange, chain_passes, is_whitelisted, get_active_usage, is_full,
  lowered, check_exchange, check_kind, check_lowered, ensure_can_create_integration,
  ensure_default_subscription,
}

-- No limit, or one that is kept.
abbrev pub Holds : ℕ → ℕ → Type 0
Holds limit n = (limit ≡ 0) ⊎ (n ≤ limit)

not_full : (limit n : ℕ) → is_full limit n ≡ false → Holds limit (suc n)
not_full limit n h = ground arith

-- The organisation's active integrations are within the three limits of the plan that the service
-- tests: on accounts, on wallets and on accounts of one exchange. The plan's max_integrations, which
-- clients are shown, is not among them: no code tests it.
pub record WithinPlan (p : Policy) (org : ℕ) (rows : List Integration) : Type 0 where
  pub cex : Holds p.max_cex_accounts (count_if (active_kind org (codes "cex")) rows)
  pub wallets : Holds p.max_wallets (count_if (active_kind org (codes "dex")) rows)
  pub exchange :
      (c : ℕ) (cs : Text)
      → Holds p.max_accounts_per_exchange (count_if (on_exchange org (c ∷ cs)) rows)

cex_is_no_dex : text_eq (codes "cex") (codes "dex") ≡ false
unfolding text_eq
cex_is_no_dex = refl

module _ (p : Policy) (org : ℕ) (i : Integration) (rows : List Integration) where
  -- One more row, where the check for its group passed if it belongs to the group.
  added :
      (q : Integration → Bool) (limit : ℕ)
      → Holds limit (count_if q rows)
      → (q i ≡ false) ⊎ (is_full limit (count_if q rows) ≡ false)
      → Holds limit (count_if q (i ∷ rows))
  added q limit h (inl e) = rw e h
  added q limit h (inr e) = elim (Bool-cases (q i)) [
    | inl f ↦ rw f (not_full limit (count_if q rows) e)
    | inr f ↦ rw f h
  ]

  other_kind : (kind : Text) → text_eq i.kind kind ≡ false → active_kind org kind i ≡ false
  other_kind kind h =
      let e : text_eq kind i.kind ≡ false = elim (Bool-cases (text_eq kind i.kind)) [
        | inl t ↦ cc (sym h ∙ ((text_eq_iff i.kind kind).1 (sym ((text_eq_iff kind i.kind).0 t))))
        | inr f ↦ f
      ] in
      ground arith

  code_free :
      (c : ℕ) (cs : Text) (o : Option Text)
      → check_exchange p org o rows ≡ none
      → code_is (c ∷ cs) o ≡ true
      → is_full p.max_accounts_per_exchange (count_if (on_exchange org (c ∷ cs)) rows) ≡ false
  unfolding check_exchange
  code_free c cs none h e = cc
  code_free c cs (some x) h e =
      let q : c ∷ cs ≡ x = (text_eq_iff (c ∷ cs) x).0 e in
      elim (Bool-cases
        (is_full p.max_accounts_per_exchange (count_if (on_exchange org (c ∷ cs)) rows))) [
          | inl full ↦ cc (rw (← q, full) at h)
          | inr free ↦ free
        ]

  exchange_free :
      (c : ℕ) (cs : Text)
      → check_exchange p org i.exchange_code rows ≡ none
      → (on_exchange org (c ∷ cs) i ≡ false)
        ⊎ (is_full p.max_accounts_per_exchange (count_if (on_exchange org (c ∷ cs)) rows) ≡ false)
  exchange_free c cs h = elim (Bool-cases (on_exchange org (c ∷ cs) i)) [
    | inr f ↦ inl f
    | inl t ↦ inr (code_free c cs i.exchange_code h (ground arith))
  ]

  kind_free :
      check_kind p org i.kind i.exchange_code rows ≡ none
      → ((active_kind org (codes "cex") i ≡ false)
          ⊎ (is_full p.max_cex_accounts (count_if (active_kind org (codes "cex")) rows) ≡ false))
        × ((active_kind org (codes "dex") i ≡ false)
            ⊎ (is_full p.max_wallets (count_if (active_kind org (codes "dex")) rows) ≡ false))
        × ((text_eq i.kind (codes "cex") ≡ false)
            ⊎ (check_exchange p org i.exchange_code rows ≡ none))
  unfolding check_kind
  kind_free h = elim (Bool-cases (text_eq i.kind (codes "cex"))) [
    | inl cex ↦
        let k : i.kind ≡ codes "cex" = (text_eq_iff i.kind (codes "cex")).0 cex in
        let no_dex : text_eq i.kind (codes "dex") ≡ false =
          subst (λ x. text_eq x (codes "dex") ≡ false) (sym k) cex_is_no_dex in
        elim (Bool-cases
          (is_full p.max_cex_accounts (count_if (active_kind org (codes "cex")) rows))) [
            | inl full ↦ cc (rw (cex, no_dex, full) at h)
            | inr free ↦
                (inr free, inl (other_kind (codes "dex") no_dex), inr (rw (cex, no_dex, free) at h))
          ]
    | inr no_cex ↦ elim (Bool-cases (text_eq i.kind (codes "dex"))) [
      | inl dex ↦
          elim (Bool-cases
            (is_full p.max_wallets (count_if (active_kind org (codes "dex")) rows))) [
              | inl full ↦ elim (Bool-cases p.allow_dex) [
                | inl a ↦ cc (rw (dex, a, no_cex, full) at h)
                | inr a ↦ cc (rw (dex, a) at h)
              ]
              | inr free ↦ (inl (other_kind (codes "cex") no_cex), inr free, inl no_cex)
            ]
      | inr no_dex ↦
          (inl (other_kind (codes "cex") no_cex), inl (other_kind (codes "dex") no_dex), inl no_cex)
    ]
  ]

  -- If the organisation is within its plan, `ensure_can_create_integration` admits a kind and an exchange
  -- code, and a row with these in lower case is added, then it is within its plan still: the limits on
  -- accounts, on wallets and on accounts of one exchange hold or are absent.
  pub ensure_can_create_integration-WithinPlan :
      (kind exchange_code : Option Text)
      → WithinPlan p org rows
      → lowered kind ≡ some i.kind
      → lowered exchange_code ≡ i.exchange_code
      → ensure_can_create_integration p org kind exchange_code rows ≡ none
      → WithinPlan p org (i ∷ rows)
  unfolding ensure_can_create_integration check_lowered
  ensure_can_create_integration-WithinPlan kind exchange_code w k c h =
      let (cex, dex, exchange) = kind_free (rw (k, c) at h) in
      record {
        cex = added (active_kind org (codes "cex")) p.max_cex_accounts w.cex cex;
        wallets = added (active_kind org (codes "dex")) p.max_wallets w.wallets dex;
        exchange = λ a b.
            added (on_exchange org (a ∷ b)) p.max_accounts_per_exchange (w.exchange a b)
              (elim exchange [
                | inl no_cex ↦ inl (let e = other_kind (codes "cex") no_cex in ground arith)
                | inr free ↦ exchange_free a b free
              ]);
      }

disjoint_groups :
    (k a b : Bool) (x y z : ℕ)
    → (a && b) ≡ false
    → x + y ≤ z
    → (if k && a then suc x else x) + (if k && b then suc y else y) ≤ (if k then suc z else z)
disjoint_groups k a b x y z h l = ground arith

chain_disjoint :
    (o : Option Text)
    → (chain_passes is_whitelisted o && chain_passes (λ c. not (is_whitelisted c)) o) ≡ false
chain_disjoint none = refl
chain_disjoint (some c) = ground arith

-- The wallets that are reported are no more than the organisation's active rows of kind "dex", on
-- which the limit is tested.
pub get_active_usage_wallets :
    (org : ℕ) (rows : List Integration)
    → (get_active_usage org rows).wallets ≤ count_if (active_kind org (codes "dex")) rows
unfolding get_active_usage
get_active_usage_wallets org [] = omega arith
get_active_usage_wallets org (i ∷ rows) =
    disjoint_groups (active_kind org (codes "dex") i) (chain_passes is_whitelisted i.chain)
      (chain_passes (λ c. not (is_whitelisted c)) i.chain) _ _ _ (chain_disjoint i.chain)
      (get_active_usage_wallets org rows)

-- From valid tables, `ensure_default_subscription` leaves valid tables, in which the organisation has
-- exactly one active subscription unless there is no free plan.
pub ensure_default_subscription_lem :
    (org now : ℕ) (d : Db)
    → IsValid d
    → let d' = ensure_default_subscription org now d in
      IsValid d'
      × ((find? (is_plan (codes "free")) d.plans ≡ none)
          ⊎ (count_if (active_of org) d'.subscriptions ≡ 1))
unfolding ensure_default_subscription
ensure_default_subscription_lem org now d v = elim (Option-cases (get_active_subscription org d)) [
  | inr (c, e) ↦
      let (a, m) = get_active_subscription_sound org d c e in
      let one : count_if (active_of org) d.subscriptions ≡ 1 =
        omega (arith, v.one_active org, count_if_pos (active_of org) c d.subscriptions a m) in
      rw (e, ensure_default_subscription) (v, inr one)
  | inl e ↦
      let zero_active = get_active_subscription-none org d e in
      elim (Option-cases (find? (is_plan (codes "free")) d.plans)) [
        | inl f ↦ rw (e, f, ensure_default_subscription) (v, inl refl)
        | inr (free, f) ↦
            let one : count_if (active_of org)
                  (add_subscription org free.id none now d).subscriptions
                ≡ 1 =
              rw (==_refl org, zero_active) refl in
            rw (e, f, ensure_default_subscription)
              (add_subscription-IsValid org free.id none now d v zero_active, inr one)
      ]
]

-- ===== src/Router/Decision.antt =====
-- What a decision of the router depends on.
use text.Mathlib.Text.{◌==◌}
use crypto_radar.Base.{
  ℕ, ◌+◌, ◌≤◌, ◌≡◌, ◌∙◌, refl, Bool-cases, inl, inr, Bool, true, false, ◌&&◌, ◌||◌, [], arith,
  length, if◌then◌else◌,
}
use crypto_radar.Float.{Float, reaches}
use crypto_radar.Router.{
  Config, RouterContext, Choice, ignore, sonnet, fable, route, route_scored, count_confirmations,
  is_text, conflicts, fable_by_score, sonnet_by_score,
}

-- How strong a decision is.
abbrev pub level : Choice → ℕ
level ignore = 0
level sonnet = 1
level fable = 2

-- The context in which the review also asks for FABLE.
abbrev pub asking_fable : {F : Type 0} → RouterContext F → RouterContext F
asking_fable ctx = record ctx { qwen_call_fable = true }

module _ {F : Type 0} (num : Float F) (config : Config F) (ctx : RouterContext F) (dq : Bool) where
  abbrev verdict : Bool → Bool → Choice
  verdict f s = if f then fable else if s then sonnet else ignore

  abbrev blocked : RouterContext F → Bool
  blocked c =
      c.tradeability_state == "UNTRADEABLE"
      || c.setup_type == "NONE"
      || (c.qwen_status == "OK" && c.qwen_veto && is_text c.qwen_confidence "HIGH")

  abbrev goes_fable : RouterContext F → Bool
  goes_fable c =
      fable_by_score num config c (length (count_confirmations num config c))
      || (c.qwen_status == "OK" && c.qwen_call_fable)
      || conflicts num config c

  abbrev goes_sonnet : RouterContext F → Bool
  goes_sonnet c = sonnet_by_score num config c || (c.qwen_status == "OK" && c.qwen_call_sonnet)

  scored_decision :
      (c : RouterContext F)
      → (route_scored num config c dq).decision ≡ verdict (goes_fable c) (goes_sonnet c)
  unfolding route_scored
  scored_decision c = elim (Bool-cases (goes_fable c)) [
    | inl f ↦ rw f refl
    | inr f ↦ elim (Bool-cases (goes_sonnet c)) [ inl s ↦ rw (f, s) refl | inr s ↦ rw (f, s) refl ]
  ]

  route_decision :
      (c : RouterContext F)
      → (route num config c dq).decision
        ≡ (if blocked c then ignore else (route_scored num config c dq).decision)
  unfolding route
  route_decision c = ground arith

  offline_names :
      (ctx.qwen_status == "OK") ≡ false
      → count_confirmations num config (asking_fable ctx) ≡ count_confirmations num config ctx
  unfolding count_confirmations
  offline_names offline = rw offline refl

  offline_same : (ctx.qwen_status == "OK") ≡ false → goes_fable (asking_fable ctx) ≡ goes_fable ctx
  offline_same offline = rw (offline_names offline, offline) refl

  asks : (a c : Bool) {b : Bool} → b ≡ true → (a || (b && true) || c) ≡ true
  asks a c e = ground arith

  online_fable : (ctx.qwen_status == "OK") ≡ true → goes_fable (asking_fable ctx) ≡ true
  online_fable online =
      asks
        (fable_by_score num config (asking_fable ctx)
          (length (count_confirmations num config (asking_fable ctx))))
        (conflicts num config (asking_fable ctx)) online

  asking_more : goes_fable ctx ≡ true → goes_fable (asking_fable ctx) ≡ true
  asking_more f = elim (Bool-cases (ctx.qwen_status == "OK")) [
    | inl online ↦ online_fable online
    | inr offline ↦ offline_same offline ∙ f
  ]

  verdict-level :
      (b f f' s : Bool)
      → (f ≡ true → f' ≡ true)
      → level (if b then ignore else verdict f s) ≤ level (if b then ignore else verdict f' s)
  verdict-level b f f' s h = ground arith

  -- A review that also asks for FABLE never lowers the router's decision: its level is at least
  -- that of the same context without the request.
  pub request_escalates :
      level (route num config ctx dq).decision
      ≤ level (route num config (asking_fable ctx) dq).decision
  request_escalates =
      let before : (route num config ctx dq).decision
          ≡ (if blocked ctx then ignore else verdict (goes_fable ctx) (goes_sonnet ctx)) =
        ground (arith, route_decision ctx, scored_decision ctx) in
      let after : (route num config (asking_fable ctx) dq).decision ≡ (
          if blocked ctx
          then ignore
          else verdict (goes_fable (asking_fable ctx)) (goes_sonnet ctx)) =
        ground (arith, route_decision (asking_fable ctx), scored_decision (asking_fable ctx)) in
      rw (before, after)
        (verdict-level (blocked ctx) (goes_fable ctx) (goes_fable (asking_fable ctx))
          (goes_sonnet ctx) asking_more)

  -- Without a review that is OK, FABLE is decided only for an opportunity at its threshold with one
  -- confirmation more than the configured minimum, in a tradeable state and with a setup.
  pub fable_unreviewed :
      (ctx.qwen_status == "OK") ≡ false
      → (route num config ctx dq).decision ≡ fable
      → (reaches num ctx.opportunity_score config.fable_min_opportunity ≡ true)
        × (config.fable_min_confirmations + 1 ≤ length (count_confirmations num config ctx))
        × ((ctx.tradeability_state == "UNTRADEABLE") ≡ false)
        × ((ctx.setup_type == "NONE") ≡ false)
  fable_unreviewed offline h = ground (arith, route_decision ctx, scored_decision ctx)

  -- An asset that is untradeable, has no setup or is vetoed by a review of high confidence is
  -- ignored with a demand score of 0 and no confirmation, whatever its other scores are.
  pub blocked_ignored :
      (ctx.tradeability_state == "UNTRADEABLE"
          || ctx.setup_type == "NONE"
          || (ctx.qwen_status == "OK" && ctx.qwen_veto && is_text ctx.qwen_confidence "HIGH"))
        ≡ true
      → ((route num config ctx dq).decision ≡ ignore)
        × ((route num config ctx dq).model_demand_score ≡ num.whole 0)
        × ((route num config ctx dq).confirmations ≡ [])
  unfolding route
  blocked_ignored h = ground arith

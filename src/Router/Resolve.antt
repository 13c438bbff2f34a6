-- ===== src/Router/Resolve.antt =====
-- `resolve` finds the first rule that applies.
use modbusgw.Base.{
  true, false, List, [], ◌∷◌, ◌++◌, All, none, some, String, ok, raise, type_error, ◌≡◌, ◌≢◌, ◌↔◌,
  inl, inr, refl, ap, sym, ◌∙◌,
}
use modbusgw.Router.{
  RoutingRule, RoutingPlan, Query, Router, method, matches, plan_of, resolve_loop, resolve,
}
use modbusgw.Router.Matching.{
  Applies, Selects, IsBounded, matches_iff, matches-unselected, matches_decides, matches_raises,
}

-- The plan is that of a rule that applies, and no rule before that one does.
pub record Chosen (rules : List RoutingRule) (q : Query) (plan : RoutingPlan) : Type 0 where
  pub before : List RoutingRule
  pub rule : RoutingRule
  pub after : List RoutingRule
  pub split : rules ≡ before ++ (rule ∷ after)
  pub earlier : All (λ r. ¬ Applies r q) before
  pub applies : Applies rule q
  pub planned : plan ≡ plan_of rule q

module _ (q : Query) where
  resolve_loop-yes :
      (rule : RoutingRule) (rest : List RoutingRule)
      → matches rule q ≡ ok true
      → resolve_loop (rule ∷ rest) q ≡ ok (some (plan_of rule q))
  unfolding resolve_loop
  resolve_loop-yes rule rest e = rw e

  resolve_loop-no :
      (rule : RoutingRule) (rest : List RoutingRule)
      → matches rule q ≡ ok false
      → resolve_loop (rule ∷ rest) q ≡ resolve_loop rest q
  unfolding resolve_loop
  resolve_loop-no rule rest e = rw e

  not-Applies : (rule : RoutingRule) → matches rule q ≡ ok false → ¬ Applies rule q
  not-Applies rule e a = cc (e, (matches_iff rule q).1 a)

  Applies-not :
      (rule : RoutingRule) → q.register ≢ method → ¬ Applies rule q → matches rule q ≡ ok false
  Applies-not rule known no_match = elim (matches_decides rule q known) [
    | inl y ↦ absurd (no_match ((matches_iff rule q).0 y))
    | inr n ↦ n
  ]

  module _ (known : q.register ≢ method) where
    to_chosen :
        (rules : List RoutingRule) (plan : RoutingPlan)
        → resolve_loop rules q ≡ ok (some plan)
        → Chosen rules q plan
    to_chosen [] plan h = unfold resolve_loop in cc
    to_chosen (r ∷ rs) plan h = elim (matches_decides r q known) [
      | inl y ↦ record {
        before = [];
        rule = r;
        after = rs;
        split = refl;
        earlier = tt;
        applies = (matches_iff r q).0 y;
        planned = cc (resolve_loop-yes r rs y);
      }
      | inr n ↦
          let c = to_chosen rs plan (sym (resolve_loop-no r rs n) ∙ h) in
          record {
            before = r ∷ c.before;
            rule = c.rule;
            after = c.after;
            split = ap (λ t. r ∷ t) c.split;
            earlier = (not-Applies r n, c.earlier);
            applies = c.applies;
            planned = c.planned;
          }
    ]

    from_split :
        (before : List RoutingRule) (rule : RoutingRule) (after : List RoutingRule)
        → All (λ r. ¬ Applies r q) before
        → Applies rule q
        → resolve_loop (before ++ (rule ∷ after)) q ≡ ok (some (plan_of rule q))
    from_split [] rule after e a = resolve_loop-yes rule after ((matches_iff rule q).1 a)
    from_split (r ∷ rs) rule after e a =
        resolve_loop-no r (rs ++ (rule ∷ after)) (Applies-not r known e.0)
        ∙ from_split rs rule after e.1 a

    to_none :
        (rules : List RoutingRule) → resolve_loop rules q ≡ ok none → All (λ r. ¬ Applies r q) rules
    to_none [] h = tt
    to_none (r ∷ rs) h = elim (matches_decides r q known) [
      | inl y ↦ absurd (cc (resolve_loop-yes r rs y))
      | inr n ↦ (not-Applies r n, to_none rs (sym (resolve_loop-no r rs n) ∙ h))
    ]

    from_none :
        (rules : List RoutingRule) → All (λ r. ¬ Applies r q) rules → resolve_loop rules q ≡ ok none
    from_none [] h = unfold resolve_loop in refl
    from_none (r ∷ rs) h = resolve_loop-no r rs (Applies-not r known h.0) ∙ from_none rs h.1

  raises_at :
      (before : List RoutingRule) (rule : RoutingRule) (after : List RoutingRule)
      → All (λ r. ¬ Selects r q) before
      → Selects rule q
      → IsBounded rule.match.register_range
      → q.register ≡ method
      → (text : String) × (resolve_loop (before ++ (rule ∷ after)) q ≡ raise (type_error text))
  unfolding resolve_loop
  raises_at [] rule after e s b m = let (text, r) = matches_raises rule q s b m in (text, rw r)
  raises_at (r ∷ rs) rule after e s b m =
      let (text, later) = raises_at rs rule after e.1 s b m in
      (text, resolve_loop-no r (rs ++ (rule ∷ after)) (matches-unselected r q e.0) ∙ later)

-- For a query with a number or nothing for a register, `resolve` returns a plan exactly if it is
-- the plan of the first rule that applies.
pub resolve_iff :
    (router : Router) (q : Query) (plan : RoutingPlan)
    → q.register ≢ method
    → (resolve router q ≡ ok (some plan)) ↔ Chosen router.rules q plan
unfolding resolve
resolve_iff router q plan known = (
  to_chosen q known router.rules plan,
  λ c. rw (c.split, c.planned) (from_split q known c.before c.rule c.after c.earlier c.applies),
)

-- For a query with a number or nothing for a register, `resolve` returns no plan exactly if no rule
-- applies.
pub resolve-none_iff :
    (router : Router) (q : Query)
    → q.register ≢ method
    → (resolve router q ≡ ok none) ↔ All (λ r. ¬ Applies r q) router.rules
unfolding resolve
resolve-none_iff router q known = (to_none q known router.rules, from_none q known router.rules)

-- On a query whose register is the class method, `resolve` raises TypeError if the first rule whose
-- other conditions hold has a range with a bound.
pub resolve_raises :
    (router : Router) (q : Query) (before after : List RoutingRule) (rule : RoutingRule)
    → router.rules ≡ before ++ (rule ∷ after)
    → All (λ r. ¬ Selects r q) before
    → Selects rule q
    → IsBounded rule.match.register_range
    → q.register ≡ method
    → (text : String) × (resolve router q ≡ raise (type_error text))
unfolding resolve
resolve_raises router q before after rule split e s b m =
    let (text, r) = raises_at q before rule after e s b m in (text, rw split r)

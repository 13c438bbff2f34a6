-- ===== src/Router/Config.antt =====
-- The route part of modbusgw/config/models.py, and `build_router_from_config` of modbusgw/app.py.
use modbusgw.Base.{ℕ, Bool, List, [], ◌∷◌, ◌++◌, map, Option, none, some, String, ◌≡◌, sym, ◌∙◌}
use mathlib.Core.List.{append-nil, append_assoc}
use modbusgw.Messages.Pdu.{Operation}
use modbusgw.Router.{Candidate, Range, Match, RoutingRule, Router, empty, add_rule}

pub record RangeConfig : Type 0 where
  pub start : ℕ
  pub end : ℕ

pub record RouteMatchConfig : Type 0 where
  pub unit_ids : List Candidate
  pub function_codes : List Candidate
  pub register_range : Option RangeConfig
  pub operations : Option (List Operation)

pub record RouteConstraints : Type 0 where
  pub max_quantity : Option ℕ
  pub min_interval_ms : Option ℕ

pub record RouteConfig : Type 0 where
  pub frontend : String
  pub backend : String
  pub match : RouteMatchConfig
  pub unit_override : Option ℕ
  pub mirror_to_mqtt : List String
  pub allow_write : Bool
  pub fallback_backend : Option String
  pub op_constraints : Option RouteConstraints

-- `register_range.model_dump()`, where a range is given
abbrev dumped : Option RangeConfig → Option Range
dumped none = none
dumped (some r) = some (record { start = some r.start; end = some r.end })

abbrev match_dict : RouteMatchConfig → Match
match_dict m = record {
  unit_ids = some m.unit_ids;
  function_codes = some m.function_codes;
  operations = m.operations;
  register_range = dumped m.register_range;
}

abbrev pub rule_of : RouteConfig → RoutingRule
rule_of route = record {
  frontend = route.frontend;
  backend = route.backend;
  match = match_dict route.match;
  unit_override = route.unit_override;
  mirror_to_mqtt = route.mirror_to_mqtt;
}

-- `for route in config.routes`
build_loop : Router → List RouteConfig → Router
unfolding add_rule
build_loop router [] = router
build_loop router (route ∷ routes) = build_loop (add_rule router (rule_of route)) routes

pub build_router_from_config : List RouteConfig → Router
unfolding build_loop
build_router_from_config routes = build_loop empty routes

rules-build_loop :
    (router : Router) (routes : List RouteConfig)
    → (build_loop router routes).rules ≡ router.rules ++ map rule_of routes
unfolding build_loop
rules-build_loop router [] = sym (append-nil router.rules)
rules-build_loop router (route ∷ routes) =
    rules-build_loop (add_rule router (rule_of route)) routes
    ∙ append_assoc router.rules (rule_of route ∷ []) (map rule_of routes)

-- The rules stand in the order of the configured routes, one for each.
pub rules-build_router :
    (routes : List RouteConfig) → (build_router_from_config routes).rules ≡ map rule_of routes
unfolding build_router_from_config
rules-build_router routes = rules-build_loop empty routes

-- ===== src/Router/Tests.antt =====
-- The theorems on the router at two rules and three queries.
use modbusgw.Base.{[], ◌∷◌, none, some, true, false, ◌≡◌, ◌≢◌, refl, ok}
use modbusgw.Messages.Pdu.{Operation}
use modbusgw.Router.{
  any, exactly, RoutingRule, Router, Query, number, method, matches, match_list, match_any,
  match_operations, contains, match_range, at_least, at_most, plan_of, resolve, resolve_loop,
}
use modbusgw.Router.Config.{RouteConfig, rule_of}
use modbusgw.Router.Matching.{Applies, Selects, matches_iff}
use modbusgw.Router.Resolve.{Chosen, resolve_iff}

-- Unit 1, registers 100 to 199.
abbrev low_route : RouteConfig
low_route = record {
  frontend = "tcp";
  backend = "meter";
  match = record {
    unit_ids = exactly 1 ∷ [];
    function_codes = any ∷ [];
    register_range = some (record { start = 100; end = 199 });
    operations = some (Operation.read ∷ []);
  };
  unit_override = some 17;
  mirror_to_mqtt = [];
  allow_write = false;
  fallback_backend = none;
  op_constraints = none;
}

-- All of the front end.
abbrev open_route : RouteConfig
open_route = record low_route {
  backend = "plc";
  match = record {
    unit_ids = any ∷ [];
    function_codes = any ∷ [];
    register_range = none;
    operations = none;
  };
  unit_override = none;
}

abbrev test_router : Router
test_router = record { rules = rule_of low_route ∷ rule_of open_route ∷ [] }

-- A read of register 150 of unit 1.
abbrev reading : Query
reading = record {
  frontend = some "tcp";
  unit_id = some 1;
  function_code = some 3;
  operation = some Operation.read;
  register = number 150;
}

abbrev elsewhere : Query
elsewhere = record reading { frontend = some "serial" }

-- A raw request of function code 0x2B, which no operation is known for.
abbrev raw_query : Query
raw_query = record reading { function_code = some 43; operation = none; register = method }

known : reading.register ≢ method
known e = absurd (cc)

reading_applies : matches (rule_of low_route) reading ≡ ok true
unfolding matches match_list match_any match_operations contains match_range at_least at_most
reading_applies = refl

resolved : resolve test_router reading ≡ ok (some (plan_of (rule_of low_route) reading))
unfolding resolve resolve_loop matches match_list match_any match_operations contains match_range
    at_least at_most
resolved = refl

unresolved : resolve test_router elsewhere ≡ ok none
unfolding resolve resolve_loop matches match_list match_any match_operations contains match_range
    at_least at_most
unresolved = refl

matches_iff_example : Applies (rule_of low_route) reading
matches_iff_example = (matches_iff (rule_of low_route) reading).0 reading_applies

resolve_iff_example : Chosen test_router.rules reading (plan_of (rule_of low_route) reading)
resolve_iff_example =
    (resolve_iff test_router reading (plan_of (rule_of low_route) reading) known).0 resolved

-- The first rule for raw requests: a range, and no operations.
abbrev ranged_rule : RoutingRule
ranged_rule = record {
  frontend = "tcp";
  backend = "meter";
  match = record {
    unit_ids = none;
    function_codes = none;
    operations = none;
    register_range = some (record { start = some 100; end = some 199 });
  };
  unit_override = none;
  mirror_to_mqtt = [];
}

ranged_rule-Selects : Selects ranged_rule raw_query
ranged_rule-Selects = record { frontend = refl; units = tt; codes = tt; operations = tt }

-- ===== src/Router.antt =====
-- modbusgw/core/router.py: the routing rules, and `build_router_from_config` of modbusgw/app.py.
pub mod Config
pub mod Matching
pub mod Resolve
mod Tests
use modbusgw.Base.{
  ℕ, Bool, true, false, ◌||◌, List, [], ◌∷◌, ◌++◌, Option, none, some, String, ◌==◌, leb,
  if◌then◌else◌, not, str_eq, Result, ok, raise, type_error, ◌>>=◌,
}
use modbusgw.Messages.Pdu.{Operation}
use modbusgw.Messages.Requests.{Register}
use modbusgw.Messages.Routing.{
  RoutedRequest, frontend_of, unit_of, code_of, operation_of, register_of,
}

-- An entry of `unit_ids` or `function_codes`: `'*'` or a number.
pub data Candidate : Type 0 where
  any : Candidate
  exactly : ℕ → Candidate

pub record Range : Type 0 where
  pub start : Option ℕ
  pub end : Option ℕ

-- The keys that `_matches` looks up in `match`.
pub record Match : Type 0 where
  pub unit_ids : Option (List Candidate)
  pub function_codes : Option (List Candidate)
  pub operations : Option (List Operation)
  pub register_range : Option Range

pub record RoutingRule : Type 0 where
  pub frontend : String
  pub backend : String
  pub match : Match
  pub unit_override : Option ℕ
  pub mirror_to_mqtt : List String

pub record RoutingPlan : Type 0 where
  pub rule : RoutingRule
  pub backend : String
  pub unit_id : Option ℕ
  pub mirror_to_mqtt : List String

-- What `_value` finds under "register": nothing, a number, or the class method of a raw request.
pub data RegisterValue : Type 0 where
  absent : RegisterValue
  number : ℕ → RegisterValue
  method : RegisterValue

-- What `_value` finds under each key; `none` is Python's None. A mapping may lack any key.
pub record Query : Type 0 where
  pub frontend : Option String
  pub unit_id : Option ℕ
  pub function_code : Option ℕ
  pub operation : Option Operation
  pub register : RegisterValue

abbrev pub register_value : Register → RegisterValue
register_value (Register.address a) = number a
register_value Register.bound_method = method

-- `_value` on a `RoutedRequest`, which has all the attributes
abbrev pub query : RoutedRequest → Query
query r = record {
  frontend = some (frontend_of r);
  unit_id = some (unit_of r);
  function_code = some (code_of r);
  operation = operation_of r;
  register = register_value (register_of r);
}

-- `for candidate in pattern`
pub match_any : List Candidate → ℕ → Bool
match_any [] value = false
match_any (any ∷ rest) value = true
match_any (exactly n ∷ rest) value = (n == value) || match_any rest value

pub match_list : Option (List Candidate) → Option ℕ → Bool
unfolding match_any
match_list none value = true
match_list (some pattern_list) none = false
match_list (some pattern_list) (some value) = match_any pattern_list value

abbrev same_operation : Operation → Operation → Bool
same_operation Operation.read Operation.read = true
same_operation Operation.write Operation.write = true
same_operation _ _ = false

-- `value in pattern`
pub contains : List Operation → Operation → Bool
contains [] value = false
contains (o ∷ rest) value = same_operation o value || contains rest value

pub match_operations : Option (List Operation) → Option Operation → Bool
unfolding contains
match_operations none value = true
match_operations (some pattern_list) none = false
match_operations (some pattern_list) (some value) = contains pattern_list value

-- `start is None or value >= start`. Python does not order a method and a number.
pub at_least : Option ℕ → RegisterValue → Result Bool
at_least none value = ok true
at_least (some start) (number n) = ok (leb start n)
at_least (some start) _ = raise (type_error "'>=' not supported")

pub at_most : Option ℕ → RegisterValue → Result Bool
at_most none value = ok true
at_most (some end) (number n) = ok (leb n end)
at_most (some end) _ = raise (type_error "'<=' not supported")

pub match_range : Option Range → RegisterValue → Result Bool
unfolding at_least at_most
match_range none value = ok true
match_range (some rng) absent = ok false
match_range (some rng) value = do
  above ← at_least rng.start value
  if above then at_most rng.end value else ok false

abbrev same_frontend : String → Option String → Bool
same_frontend name none = false
same_frontend name (some other) = str_eq name other

pub matches : RoutingRule → Query → Result Bool
unfolding match_list match_operations match_range
matches rule q =
    if not (same_frontend rule.frontend q.frontend)
    then ok false
    else if not (match_list rule.match.unit_ids q.unit_id)
    then ok false
    else if not (match_list rule.match.function_codes q.function_code)
    then ok false
    else if not (match_operations rule.match.operations q.operation)
    then ok false
    else match_range rule.match.register_range q.register

abbrev pub override_or : Option ℕ → Option ℕ → Option ℕ
override_or none unit_id = unit_id
override_or (some unit) unit_id = some unit

-- The plan of the rule that matched.
abbrev pub plan_of : RoutingRule → Query → RoutingPlan
plan_of rule q = record {
  rule = rule;
  backend = rule.backend;
  unit_id = override_or rule.unit_override q.unit_id;
  mirror_to_mqtt = rule.mirror_to_mqtt;
}

pub record Router : Type 0 where
  pub rules : List RoutingRule

abbrev pub empty : Router
empty = record { rules = [] }

pub add_rule : Router → RoutingRule → Router
add_rule r rule = record { rules = r.rules ++ (rule ∷ []) }

clear : Router → Router
clear r = record { rules = [] }

-- `for rule in self._rules`
pub resolve_loop : List RoutingRule → Query → Result (Option RoutingPlan)
resolve_loop [] q = ok none
resolve_loop (rule ∷ rest) q =
    let later = resolve_loop rest q in
    do hit ← matches rule q; if hit then ok (some (plan_of rule q)) else later

pub resolve : Router → Query → Result (Option RoutingPlan)
unfolding resolve_loop
resolve r q = resolve_loop r.rules q

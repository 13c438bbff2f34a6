-- ===== src/Router/Matching.antt =====
-- What it means that a rule applies, and that `_matches` decides it.
use modbusgw.Base.{
  ◌&&◌, if◌then◌else◌, ◌∙◌, ℕ, ◌≤◌, Bool, true, false, List, [], ◌∷◌, Option, none, some, String,
  ok, raise, ◌≡◌, ◌≢◌, ◌↔◌, ◌⊎◌, inl, inr, refl, arith, str_eq_iff, Bool-cases, Option-cases,
  type_error,
}
use modbusgw.Messages.Pdu.{Operation}
use modbusgw.Router.{
  Candidate, any, exactly, Range, RoutingRule, Query, RegisterValue, absent, number, method,
  match_any, match_list, contains, match_operations, match_range, matches, same_frontend,
}

-- `c` is an element.
abbrev pub Among : {A : Type 0} → A → List A → Type 0
Among c [] = ⊥
Among c (d ∷ rest) = (d ≡ c) ⊎ Among c rest

-- A list pattern: None allows all, a list allows its numbers, or any number if it has `'*'`.
abbrev pub Permits : Option (List Candidate) → Option ℕ → Type 0
Permits none value = Unit
Permits (some candidates) none = ⊥
Permits (some candidates) (some n) = Among any candidates ⊎ Among (exactly n) candidates

abbrev pub PermitsOperation : Option (List Operation) → Option Operation → Type 0
PermitsOperation none value = Unit
PermitsOperation (some operations) none = ⊥
PermitsOperation (some operations) (some o) = Among o operations

abbrev pub NoLess : ℕ → Option ℕ → Type 0
NoLess n none = Unit
NoLess n (some start) = start ≤ n

abbrev pub NoMore : ℕ → Option ℕ → Type 0
NoMore n none = Unit
NoMore n (some end) = n ≤ end

-- A register range: a register is needed, and both ends count. A range with neither bound allows
-- whatever is there.
abbrev pub InRange : Option Range → RegisterValue → Type 0
InRange none value = Unit
InRange (some rng) absent = ⊥
InRange (some rng) (number n) = NoLess n rng.start × NoMore n rng.end
InRange (some rng) method = (rng.start ≡ none) × (rng.end ≡ none)

-- The conditions of a rule that do not look at the register.
pub record Selects (rule : RoutingRule) (q : Query) : Type 0 where
  pub frontend : q.frontend ≡ some rule.frontend
  pub units : Permits rule.match.unit_ids q.unit_id
  pub codes : Permits rule.match.function_codes q.function_code
  pub operations : PermitsOperation rule.match.operations q.operation

-- All of the conditions.
pub record Applies (rule : RoutingRule) (q : Query) : Type 0 where
  pub selects : Selects rule q
  pub in_range : InRange rule.match.register_range q.register

match_any_iff :
    (cs : List Candidate) (n : ℕ) → (match_any cs n ≡ true) ↔ (Among any cs ⊎ Among (exactly n) cs)
unfolding match_any
match_any_iff [] n = ground arith
match_any_iff (any ∷ cs) n = (λ _. inl (inl refl), λ _. refl)
match_any_iff (exactly m ∷ cs) n = ground (arith, match_any_iff cs n)

match_list_iff :
    (p : Option (List Candidate)) (v : Option ℕ) → (match_list p v ≡ true) ↔ Permits p v
unfolding match_list
match_list_iff none v = ground arith
match_list_iff (some cs) none = ground arith
match_list_iff (some cs) (some n) = match_any_iff cs n

contains_iff : (os : List Operation) (o : Operation) → (contains os o ≡ true) ↔ Among o os
unfolding contains
contains_iff [] o = ground arith
contains_iff (Operation.read ∷ os) Operation.read = ground (arith, contains_iff os Operation.read)
contains_iff (Operation.read ∷ os) Operation.write = ground (arith, contains_iff os Operation.write)
contains_iff (Operation.write ∷ os) Operation.read = ground (arith, contains_iff os Operation.read)
contains_iff (Operation.write ∷ os) Operation.write =
    ground (arith, contains_iff os Operation.write)

match_operations_iff :
    (p : Option (List Operation)) (v : Option Operation)
    → (match_operations p v ≡ true) ↔ PermitsOperation p v
unfolding match_operations
match_operations_iff none v = ground arith
match_operations_iff (some os) none = ground arith
match_operations_iff (some os) (some o) = contains_iff os o

match_range_iff : (r : Option Range) (v : RegisterValue) → (match_range r v ≡ ok true) ↔ InRange r v
unfolding match_range
match_range_iff none v = ground arith
match_range_iff (some r) absent = ground arith
match_range_iff (some r) (number n) = ground arith
match_range_iff (some r) method = ground arith

same_frontend_iff :
    (name : String) (f : Option String) → (same_frontend name f ≡ true) ↔ (f ≡ some name)
same_frontend_iff name none = (λ e. absurd (cc), λ e. absurd (cc))
same_frontend_iff name (some other) = ground (arith, str_eq_iff name other)

-- The tests that come before the one of the register range.
abbrev tests : RoutingRule → Query → Bool
tests rule q =
    same_frontend rule.frontend q.frontend
    && match_list rule.match.unit_ids q.unit_id
    && match_list rule.match.function_codes q.function_code
    && match_operations rule.match.operations q.operation

tests_iff : (rule : RoutingRule) (q : Query) → (tests rule q ≡ true) ↔ Selects rule q
tests_iff rule q = (
  λ h. record {
    frontend = (same_frontend_iff rule.frontend q.frontend).0 (ground arith);
    units = (match_list_iff rule.match.unit_ids q.unit_id).0 (ground arith);
    codes = (match_list_iff rule.match.function_codes q.function_code).0 (ground arith);
    operations = (match_operations_iff rule.match.operations q.operation).0 (ground arith);
  },
  λ s. rw (
    (same_frontend_iff rule.frontend q.frontend).1 s.frontend,
    (match_list_iff rule.match.unit_ids q.unit_id).1 s.units,
    (match_list_iff rule.match.function_codes q.function_code).1 s.codes,
    (match_operations_iff rule.match.operations q.operation).1 s.operations,
  ),
)

matches-tests :
    (rule : RoutingRule) (q : Query)
    → matches rule q
      ≡ (if tests rule q then match_range rule.match.register_range q.register else ok false)
unfolding matches
matches-tests rule q = ground arith

-- `_matches` says yes exactly to the requests that meet all the conditions of the rule.
pub matches_iff : (rule : RoutingRule) (q : Query) → (matches rule q ≡ ok true) ↔ Applies rule q
matches_iff rule q = (
  λ h. record {
    selects = (tests_iff rule q).0 (ground (arith, matches-tests rule q));
    in_range =
        (match_range_iff rule.match.register_range q.register).0
          (ground (arith, matches-tests rule q));
  },
  λ a.
      matches-tests rule q
      ∙ rw (
        (tests_iff rule q).1 a.selects,
        (match_range_iff rule.match.register_range q.register).1 a.in_range,
      ),
)

-- A rule that some condition before the register excludes says no, whatever the register is.
pub matches-unselected :
    (rule : RoutingRule) (q : Query) → ¬ Selects rule q → matches rule q ≡ ok false
matches-unselected rule q no_match = elim (Bool-cases (tests rule q)) [
  | inl t ↦ absurd (no_match ((tests_iff rule q).0 t))
  | inr f ↦ matches-tests rule q ∙ rw f
]

match_range_decides :
    (r : Option Range) (v : RegisterValue)
    → v ≢ method
    → (match_range r v ≡ ok true) ⊎ (match_range r v ≡ ok false)
unfolding match_range
match_range_decides none v h = inl refl
match_range_decides (some r) absent h = inr refl
match_range_decides (some r) (number n) h = ground arith
match_range_decides (some r) method h = absurd (h refl)

-- Only the class method of a raw request can make `_matches` raise.
pub matches_decides :
    (rule : RoutingRule) (q : Query)
    → q.register ≢ method
    → (matches rule q ≡ ok true) ⊎ (matches rule q ≡ ok false)
matches_decides rule q known =
    let range = match_range_decides rule.match.register_range q.register known in
    ground (arith, range, matches-tests rule q)

-- A range with a bound.
abbrev pub IsBounded : Option Range → Type 0
IsBounded none = ⊥
IsBounded (some rng) = (rng.start ≢ none) ⊎ (rng.end ≢ none)

match_range_raises :
    (rng : Range)
    → IsBounded (some rng)
    → (text : String) × (match_range (some rng) method ≡ raise (type_error text))
unfolding match_range
match_range_raises rng b = elim (Option-cases rng.start) [
  | inr (n, e) ↦ ("'>=' not supported", ground arith)
  | inl e ↦ ("'<=' not supported", ground arith)
]

-- On the class method the comparison with a bound raises TypeError.
pub matches_raises :
    (rule : RoutingRule) (q : Query)
    → Selects rule q
    → IsBounded rule.match.register_range
    → q.register ≡ method
    → (text : String) × (matches rule q ≡ raise (type_error text))
matches_raises rule q s b e = elim (Option-cases rule.match.register_range) [
  | inl e' ↦ absurd (rw e' at b)
  | inr (rng, e') ↦
      let (text, r) = match_range_raises rng (rw e' at b) in
      (text, matches-tests rule q ∙ rw ((tests_iff rule q).1 s, e', e) r)
]

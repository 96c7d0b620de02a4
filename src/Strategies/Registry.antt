-- ===== src/Strategies/Registry.antt =====
-- src/zeroshield/strategies/registry.py: the strategies by their identifiers.
pub mod Resolve
use zero_shield.Base.{ℕ, String, List, [], ◌∷◌, map, str_eq, if◌then◌else◌}
use zero_shield.Base.Effects.{Result, ok, err}
use zero_shield.Base.Floats.{Float}
use zero_shield.Models.Values.{Value, Fields}
use zero_shield.Models.Runs.{StrategyOutcome}
use zero_shield.Strategies.Vpn
use zero_shield.Strategies.Telecom

-- The classes of strategies
pub data Strategy : Type 0 where
  weak_schema_length : Strategy
  strict_schema_canonicalisation : Strategy
  weak_mandatory_field_state : Strategy
  strict_grammar_state_machine : Strategy

-- The class attribute `strategy_id`
abbrev pub strategy_id : Strategy → String
strategy_id Strategy.weak_schema_length = "weak_schema_length_baseline"
strategy_id Strategy.strict_schema_canonicalisation = "strict_schema_canonicalisation_mitigation"
strategy_id Strategy.weak_mandatory_field_state = "weak_mandatory_field_state_baseline"
strategy_id Strategy.strict_grammar_state_machine = "strict_grammar_state_machine_mitigation"

-- The classes that `_REGISTRY` is made of
abbrev pub registry : List Strategy
registry =
    Strategy.weak_schema_length ∷ Strategy.strict_schema_canonicalisation
    ∷ Strategy.weak_mandatory_field_state ∷ Strategy.strict_grammar_state_machine ∷ []

-- `UnknownStrategyError`
pub data UnknownStrategy : Type 0 where
  unknown_strategy : String → UnknownStrategy

-- `_REGISTRY[key]`
abbrev pub look_up : List Strategy → String → Result UnknownStrategy Strategy
look_up [] key = err (UnknownStrategy.unknown_strategy key)
look_up (s ∷ rest) key =
    let below = look_up rest key in if str_eq (strategy_id s) key then ok s else below

unfoldable pub resolve_strategy : String → Result UnknownStrategy Strategy
resolve_strategy key = look_up registry key

-- `process` of the class
abbrev pub process :
    {F : Type 0} ⦃f : Float F⦄
    → (Value F → List ℕ)
    → Strategy
    → Fields F
    → Result String StrategyOutcome
process str_of Strategy.weak_schema_length d = Vpn.weak_process d
process str_of Strategy.strict_schema_canonicalisation d = Vpn.strict_process str_of d
process str_of Strategy.weak_mandatory_field_state d = Telecom.weak_process d
process str_of Strategy.strict_grammar_state_machine d = Telecom.strict_process str_of d

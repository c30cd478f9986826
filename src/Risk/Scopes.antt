-- ===== src/Risk/Scopes.antt =====
-- src/ismet/execution/risk.py: the scopes whose limits an order is held to. `label` is the text of a
-- symbol in upper case, `str(symbol).upper()`, which Python's strings make.
use ismet.Prelude.{
  ℕ, ◌+◌, Bool, true, false, Option, none, some, List, [], ◌∷◌, ◌++◌, Text, leb, ◌==◌,
  if◌then◌else◌,
}
use ismet.Prelude.Dict.{Dict, lookup}
use ismet.Models.Symbol.{Symbol}
use ismet.Models.Orders.{OrderRequest}
use ismet.Execution.State.{OrderState}
use ismet.Risk.Checks.{RiskLimits}

-- The label of a scope; its text is `kind:name`.
pub data Scope : Type 0 where
  default_scope : Scope
  account_scope strategy_scope symbol_scope : (name : Text) → Scope

pub record ScopedLimits : Type 0 where
  pub default_limits : RiskLimits
  pub per_account : Dict RiskLimits
  pub per_strategy : Dict RiskLimits
  pub per_symbol : Dict RiskLimits

-- `request.account == name`
abbrev pub names : Option Text → Text → Bool
names none name = false
names (some a) name = a == name

abbrev pub limits_at : Scope → Option RiskLimits → List (Scope × RiskLimits)
limits_at scope none = []
limits_at scope (some limits) = (scope, limits) ∷ []

abbrev pub scope_of : Option Text → Dict RiskLimits → (Text → Scope) → List (Scope × RiskLimits)
scope_of none per scope = []
scope_of (some name) per scope = limits_at (scope name) (lookup name per)

module _ (label : Symbol → Text) where
  -- `_in_scope`
  unfoldable pub in_scope : OrderRequest → Scope → Bool
  in_scope r default_scope = true
  in_scope r (account_scope name) = names r.account name
  in_scope r (strategy_scope name) = names r.strategy name
  in_scope r (symbol_scope name) = label r.symbol == name

  -- `limits_for`
  unfoldable pub limits_for : ScopedLimits → OrderRequest → List (Scope × RiskLimits)
  limits_for config r =
      ((default_scope, config.default_limits) ∷ [])
      ++ (scope_of r.account config.per_account account_scope
          ++ (scope_of r.strategy config.per_strategy strategy_scope
              ++ scope_of (some (label r.symbol)) config.per_symbol symbol_scope))

  -- The count of `check_open_orders`.
  unfoldable pub count_open : List OrderState → Scope → ℕ
  count_open [] scope = 0
  count_open (o ∷ os) scope = (if in_scope o.request scope then 1 else 0) + count_open os scope

  -- `check_open_orders`, with `true` for a refusal.
  unfoldable pub check_open_orders : List OrderState → RiskLimits → Scope → Bool
  check_open_orders orders limits scope = elim limits.max_open_orders [
    | none ↦ false
    | some most ↦ leb most (count_open orders scope)
  ]

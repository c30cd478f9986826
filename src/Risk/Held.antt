-- ===== src/Risk/Held.antt =====
-- src/ismet/execution/risk.py: the open orders of a scope never exceed the limit that it is given.
use ismet.Prelude.{
  ℕ, suc, ◌+◌, ◌≤◌, true, false, Option, none, some, List, [], ◌∷◌, ◌++◌, map, Text, leb, ◌==◌,
  ==_iff, All, length, if◌then◌else◌, ◌≡◌, refl, arith, inl, inr, Bool-cases,
}
use mathlib.Core.Path.{subst}
use ismet.Prelude.Dict.{Dict, lookup}
use ismet.Models.Symbol.{Symbol}
use ismet.Models.Orders.{OrderRequest}
use ismet.Execution.State.{OrderState}
use ismet.Risk.Checks.{RiskLimits}
use ismet.Risk.Scopes.{
  Scope, default_scope, account_scope, strategy_scope, symbol_scope, ScopedLimits, names, limits_at,
  scope_of, in_scope, limits_for, count_open, check_open_orders,
}

-- The limits that the configuration gives a scope.
abbrev pub limits_of : ScopedLimits → Scope → Option RiskLimits
limits_of config default_scope = some config.default_limits
limits_of config (account_scope name) = lookup name config.per_account
limits_of config (strategy_scope name) = lookup name config.per_strategy
limits_of config (symbol_scope name) = lookup name config.per_symbol

-- How often a text stands in a list where it may be missing.
unfoldable pub occurrences : Text → List (Option Text) → ℕ
occurrences t [] = 0
occurrences t (none ∷ ts) = occurrences t ts
occurrences t (some u ∷ ts) = let rest = occurrences t ts in if u == t then suc rest else rest

All-split {ℓ κ} :
    {A : Type ℓ} (P : A → Type κ) (xs ys : List A) → All P (xs ++ ys) → All P xs × All P ys
All-split P [] ys h = (tt, h)
All-split P (x ∷ xs) ys h = let (a, b) = All-split P xs ys h.1 in ((h.0, a), b)

at_found :
    (P : Scope × RiskLimits → Type 0) (scope : Scope) (o : Option RiskLimits) (limits : RiskLimits)
    → o ≡ some limits
    → All P (limits_at scope o)
    → P (scope, limits)
at_found P scope o limits found h = (subst (λ x. All P (limits_at scope x)) found h).0

at_name :
    (P : Scope × RiskLimits → Type 0) (o : Option Text) (name : Text) (per : Dict RiskLimits)
    (scope : Text → Scope) (limits : RiskLimits)
    → names o name ≡ true
    → lookup name per ≡ some limits
    → All P (scope_of o per scope)
    → P (scope name, limits)
at_name P none name per scope limits n found h = absurd (ground (arith, n))
at_name P (some a) name per scope limits n found h =
    at_found P (scope name) (lookup name per) limits found
      (subst (λ x. All P (limits_at (scope x) (lookup x per))) ((==_iff a name).0 n) h)

module _ (label : Symbol → Text) where
  -- The number of orders in a scope, told from their accounts, strategies and symbols.
  abbrev pub held : Scope → List OrderState → ℕ
  held default_scope os = length os
  held (account_scope name) os = occurrences name (map (λ (o : OrderState). o.request.account) os)
  held (strategy_scope name) os = occurrences name (map (λ (o : OrderState). o.request.strategy) os)
  held (symbol_scope name) os =
      occurrences name (map (λ (o : OrderState). some (label o.request.symbol)) os)

  -- What holds of every scope of an order, holds of one that it is in and that has limits.
  at_scope :
      (P : Scope × RiskLimits → Type 0) (config : ScopedLimits) (r : OrderRequest) (scope : Scope)
      (limits : RiskLimits)
      → in_scope label r scope ≡ true
      → limits_of config scope ≡ some limits
      → All P (limits_for label config r)
      → P (scope, limits)
  unfolding limits_for in_scope
  at_scope P config r scope limits own found (first, h) =
      let accounts = scope_of r.account config.per_account account_scope in
      let strategies = scope_of r.strategy config.per_strategy strategy_scope in
      let symbols = scope_of (some (label r.symbol)) config.per_symbol symbol_scope in
      let (in_accounts, rest) = All-split P accounts (strategies ++ symbols) h in
      let (in_strategies, in_symbols) = All-split P strategies symbols rest in
      at scope own found in_accounts in_strategies in_symbols
    where
      at :
          (scope : Scope)
          → in_scope label r scope ≡ true
          → limits_of config scope ≡ some limits
          → All P (scope_of r.account config.per_account account_scope)
          → All P (scope_of r.strategy config.per_strategy strategy_scope)
          → All P (scope_of (some (label r.symbol)) config.per_symbol symbol_scope)
          → P (scope, limits)
      at default_scope own found a b c =
          at_found P default_scope (some config.default_limits) limits found (first, tt)
      at (account_scope name) own found a b c =
          at_name P r.account name config.per_account account_scope limits own found a
      at (strategy_scope name) own found a b c =
          at_name P r.strategy name config.per_strategy strategy_scope limits own found b
      at (symbol_scope name) own found a b c =
          at_name P (some (label r.symbol)) name config.per_symbol symbol_scope limits own found c

  occurrences-names :
      (name : Text) (o : Option Text) (ts : List (Option Text))
      → occurrences name (o ∷ ts) ≡ (if names o name then 1 else 0) + occurrences name ts
  unfolding occurrences
  occurrences-names name none ts = omega arith
  occurrences-names name (some u) ts = ground arith

  held-cons :
      (scope : Scope) (o : OrderState) (os : List OrderState)
      → held scope (o ∷ os) ≡ (if in_scope label o.request scope then 1 else 0) + held scope os
  unfolding in_scope
  held-cons default_scope o os = omega arith
  held-cons (account_scope name) o os = occurrences-names name o.request.account _
  held-cons (strategy_scope name) o os = occurrences-names name o.request.strategy _
  held-cons (symbol_scope name) o os = occurrences-names name (some (label o.request.symbol)) _

  count_open-held :
      (scope : Scope) (os : List OrderState) → count_open label os scope ≡ held scope os
  unfolding count_open occurrences
  count_open-held default_scope [] = refl
  count_open-held (account_scope name) [] = refl
  count_open-held (strategy_scope name) [] = refl
  count_open-held (symbol_scope name) [] = refl
  count_open-held scope (o ∷ os) = omega (arith, held-cons scope o os, count_open-held scope os)

  -- A scope that has at most as many open orders as its limit, has no more than that with an order
  -- for which `check_open_orders` refuses none of the scopes that `limits_for` gives it. The
  -- orders of a scope are those of its account, strategy or symbol, and all orders for the default.
  pub open_orders_bounded :
      (config : ScopedLimits) (orders : List OrderState) (o : OrderState) (scope : Scope)
      (limits : RiskLimits) {most : ℕ}
      → All
          (λ (s : Scope × RiskLimits). check_open_orders label orders s.1 s.0 ≡ false)
          (limits_for label config o.request)
      → limits_of config scope ≡ some limits
      → limits.max_open_orders ≡ some most
      → held scope orders ≤ most
      → held scope (o ∷ orders) ≤ most
  unfolding check_open_orders
  open_orders_bounded config orders o scope limits {most = most} passed found e before =
      elim (Bool-cases (in_scope label o.request scope)) [
        | inr other ↦ rw (held-cons scope o orders, other) (omega (arith, before))
        | inl own ↦
            let free =
              at_scope (λ s. check_open_orders label orders s.1 s.0 ≡ false) config o.request scope
                limits own found passed in
            let below : leb most (count_open label orders scope) ≡ false = rw (e) at free in
            rw (held-cons scope o orders, own) (ground (arith, below, count_open-held scope orders))
      ]

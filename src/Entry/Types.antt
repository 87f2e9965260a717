-- ===== src/Entry/Types.antt =====
-- internal/entry/types.go
use svidmint.Base.{String, List}
use svidmint.Base.Int.{ℤ}

pub record RegistrationEntry : Type 0 where
  pub id : String
  pub spiffe_id : String
  pub attestor : String
  pub selectors : List String
  pub ttl : ℤ

-- `map[string]string`
abbrev pub Claims : Type 0
Claims = List (String × String)

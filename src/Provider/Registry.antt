-- ===== src/Provider/Registry.antt =====
-- internal/provider/registry.go. The lock makes each operation one step, so the state is the map.
pub mod Laws
use nexus_ai_gateway.Prelude.{String, Option, List, [], lookup, insert, values}
use nexus_ai_gateway.Provider.{Provider}

pub record Registry : Type 0 where
  pub providers : List (String × Provider)

unfoldable pub new_registry : Registry
new_registry = record { providers = [] }

unfoldable pub register : Provider → Registry → Registry
register p r = record { providers = insert p.id p r.providers }

unfoldable pub get : Registry → String → Option Provider
get r id = lookup id r.providers

-- `All` ranges over the map in an order that Go leaves open: callers take any list of these.
unfoldable pub all : Registry → List Provider
all r = values r.providers

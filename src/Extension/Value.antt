-- ===== src/Extension/Value.antt =====
-- What the extension registries keep under their keys. `F` stands for the functions that are
-- registered (modules, routes, commands, jobs, resolvers): the registries never look into them.
use magento_go.Prelude.{String, List}
use magento_go.Prelude.Dict.{Dict}

-- cron.Job
pub record Job {ℓ} (F : Type ℓ) : Type ℓ where
  pub schedule : String
  pub run : F

-- The dynamic types that the registries store as `interface{}`.
pub data Value {ℓ} (F : Type ℓ) : Type ℓ where
  nil : Value F
  modules : List F → Value F
  routes : List F → Value F
  commands : List F → Value F
  jobs : Dict String (Job F) → Value F
  resolvers : Dict String F → Value F

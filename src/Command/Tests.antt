-- ===== src/Command/Tests.antt =====
-- A run of the command of cmd/product_json.go on a database that notes its statements.
use magento_go.Prelude.{
  ℕ, ◌+◌, ◌≡◌, refl, String, Option, none, some, List, [], ◌∷◌, ◌++◌, map, length,
}
use magento_go.Prelude.Panic.{panic}
use magento_go.Product.Value.{Flat}
use magento_go.Product.Repo.{Flats}
use magento_go.Command.Json.{ProductJson, Update, Db, update_of, report, run_index}
use magento_go.Command.Json.Batches.{Notes}
use magento_go.Command.Json.Entries.{entry_of}
use magento_go.Command.Json.Written.{new_entries, known_entries, run_index-written}

abbrev Log : Type 0
Log = List ProductJson × List Update

abbrev log : Db Log String
log = record {
  create_in_batches = λ rows n s. ((s.0 ++ rows, s.1), none);
  upsert = λ rows s. ((s.0, s.1 ++ rows), none);
}

log-Notes : Notes log (λ s. s.0) (λ s. s.1)
log-Notes = record {
  insert-inserted = λ rows n s. refl;
  insert-updated = λ rows n s. refl;
  upsert-updated = λ rows s. refl;
  upsert-inserted = λ rows s. refl;
  upsert_succeeds = λ rows s. refl;
}

abbrev entries : List ProductJson
entries =
    record { id = 1; entity_id = 7; store_id = 0; attributes = "older" }
    ∷ record { id = 2; entity_id = 7; store_id = 0; attributes = "old" }
    ∷ record { id = 3; entity_id = 7; store_id = 1; attributes = "other" }
    ∷ []

abbrev flats : Flats ℕ ℕ
flats = (8, []) ∷ (7, []) ∷ []

abbrev marshal : Flat ℕ ℕ → Option String
marshal flat = some "{}"

run_index-written_example :
    (result : Log × ℕ) × (run_index log marshal entries flats ([], []) ≡ report flats result)
    × (result.0.0 ≡ [] ++ new_entries marshal (entry_of entries) flats)
    × (result.0.1 ≡ [] ++ map update_of (known_entries marshal (entry_of entries) flats))
    × (result.1
        ≡ length (new_entries marshal (entry_of entries) flats)
          + length (known_entries marshal (entry_of entries) flats))
run_index-written_example =
    run_index-written log (λ s. s.0) (λ s. s.1) log-Notes marshal entries flats ([], [])

-- Without products the report divides by zero.
no_products :
    run_index {F = ℕ} {T = ℕ} log marshal entries [] ([], [])
    ≡ panic "runtime error: integer divide by zero"
unfolding run_index
no_products = refl

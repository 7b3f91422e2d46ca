-- ===== src/Import/Jobs.antt =====
-- The goroutines of service/product that write to the database side by side: each sends its error to
-- a channel, all are waited for, and the first error in the channel is returned. The list is the order
-- in which they finish, which Go leaves open.
use magento_go.Prelude.{Option, none, some, List, [], ◌∷◌}

-- A job on the database `S`: its state afterwards, and an error or nil.
abbrev pub Job {ℓ κ} : Type ℓ → Type κ → Type (ℓ ⊔ κ)
Job S E = S → S × Option E

-- `for err := range errs { if err != nil { return nil, err } }` over two results
abbrev pub first_of {ℓ} : {E : Type ℓ} → Option E → Option E → Option E
first_of none f = f
first_of (some e) f = some e

unfoldable pub run_all {ℓ κ} : {S : Type ℓ} {E : Type κ} → List (Job S E) → Job S E
run_all [] s = (s, none)
run_all (j ∷ js) s = let (s1, e1) = j s in let (s2, e2) = run_all js s1 in (s2, first_of e1 e2)

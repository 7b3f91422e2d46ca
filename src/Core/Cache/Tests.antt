-- ===== src/Core/Cache/Tests.antt =====
-- Runs of the cache.
use magento_go.Prelude.{
  ℕ, ◌≡◌, String, none, some, [], ◌∷◌, ◌&&◌, not, ◌==◌, string_eq, arith, if◌then◌else◌,
}
use magento_go.Prelude.Dict.{has}
use magento_go.Prelude.Int.{pos}
use magento_go.Core.Cache.{Cache, tag_set, set, get, delete_by_tag}
use magento_go.Core.Cache.Expiry.{is_over, get-set, get-set_overflow}
use magento_go.Core.Cache.Tags.{delete_by_tag-exact}

abbrev a : String
a = "a"

abbrev b : String
b = "b"

abbrev x : String
x = "x"

abbrev z : String
z = "z"

abbrev empty : Cache String ℕ
empty = record { m = []; tag_index = [] }

abbrev hourly : Cache String ℕ
hourly = set 0 "a" 1 (pos 3600) ("x" ∷ []) empty

get-set_example :
    (get 5 "a" (set 0 "a" 1 (pos 2) [] hourly)).1
    ≡ (if a == a then if is_over 0 (pos 2) 5 then none else some 1 else (get 5 "a" hourly).1)
get-set_example = get-set 0 5 "a" "a" 1 (pos 2) [] hourly (omega arith)

get-set_overflow_example : (get 7 "a" (set 5 "a" 1 (pos 9300000000) [] empty)).1 ≡ some 1
get-set_overflow_example =
    get-set_overflow 5 7 9300000000 "a" 1 [] empty (omega arith) (omega arith) (omega arith)

delete_by_tag-exact_example :
    let c' = delete_by_tag "x" hourly in
    ((get 1 "a" c').1 ≡ (if has "a" (tag_set "x" hourly) then none else (get 1 "a" hourly).1))
    × (has "a" (tag_set "z" c')
        ≡ (not (x == z) && (not (has "a" (tag_set "x" hourly)) && has "a" (tag_set "z" hourly))))
delete_by_tag-exact_example = delete_by_tag-exact "x" "z" 1 "a" hourly

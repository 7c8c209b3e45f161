-- ===== src/Http/Response/File/Tests.antt =====
-- A file of five bytes that is read in two pieces.
use budd.Common.{
  ◌-◌, ◌^◌, ◌≤◌, ◌<◌, ◌≡◌, ◌⊎◌, true, false, none, some, [], ◌∷◌, ◌++◌, length, replicate, codes,
}
use budd.Outcome.{ok, err, out_of_bounds}
use budd.Http.Response.{initial, set_body, set_file}
use budd.Http.Response.File.{set_file_lem}
use budd.Http.Response.File.Reads.{joined, IsTooMuch}

set_file_lem_example :
    let whole = joined (codes "abc" ∷ codes "de" ∷ []) in
    let result = set_file (some (5, codes "abc" ∷ codes "de" ∷ [])) (initial false) in
    (set_file none (initial false) ≡ ok (false, initial false))
    × ((length whole ≤ 5)
          × (length whole < 2 ^ 31)
          × (result ≡ ok (true, set_body (whole ++ replicate (5 - length whole) 0) (initial false)))
        ⊎ (5 < length whole) × (5 < 2 ^ 31) × (result ≡ err out_of_bounds)
        ⊎ (2 ^ 31 ≤ 5) × (2 ^ 31 ≤ length whole) × IsTooMuch result)
set_file_lem_example = set_file_lem 5 (codes "abc" ∷ codes "de" ∷ []) (initial false)

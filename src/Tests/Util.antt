-- ===== src/Tests/Util.antt =====
-- src/util.rs and src/url.rs: the wide strings of the source's tests, and two URLs that are equal in
-- the order of URLs.
use wrest.Prelude.Result.{ok}
use wrest.Prelude.Text.{codes}
use wrest.Prelude.{ℕ, List, [], ◌∷◌, none, some, ◌≡◌, refl}
use wrest.Util.{wide_to_string, wide_to_string_lossy}

abbrev ok_with_null_and_suffix : List ℕ
ok_with_null_and_suffix = b'O' ∷ b'K' ∷ 0 ∷ b'X' ∷ []

counted_trailing_null : wide_to_string (some ok_with_null_and_suffix) (some 3) ≡ ok (codes "OK")
unfolding wide_to_string
counted_trailing_null = refl

null_terminated_stops_at_first_null :
    wide_to_string (some ok_with_null_and_suffix) none ≡ ok (codes "OK")
unfolding wide_to_string
null_terminated_stops_at_first_null = refl

null_ptr_counted : wide_to_string none (some 10) ≡ ok []
unfolding wide_to_string
null_ptr_counted = refl

lossy_unpaired : wide_to_string_lossy (some (0xD800 ∷ 0 ∷ [])) none ≡ 0xFFFD ∷ []
unfolding wide_to_string_lossy
lossy_unpaired = refl

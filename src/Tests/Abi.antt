-- ===== src/Tests/Abi.antt =====
-- src/abi/encoding.rs: decoding with an ICU that lacks one converter.
use wrest.Abi.Decode.{Nls, IcuFunctions, platform}
use wrest.Abi.Fallback.{run_backend-fallback}
use wrest.Encoding.Backend.{icu_preferred}
use wrest.Encoding.{run_backend}
use wrest.Prelude.Int.{pos}
use wrest.Prelude.Result.{ok}
use wrest.Prelude.Text.{codes, text_eq}
use wrest.Prelude.{some, none, length, if◌then◌else◌, ◌≡◌, refl, take}

-- The code page maps every octet to itself.
abbrev sample_nls : Nls
sample_nls = record {
  query = λ _ d. pos (length d);
  convert = λ _ d capacity. (pos capacity, take capacity d);
}

abbrev sample_icu : IcuFunctions
sample_icu = record {
  u_file_access_error = 4;
  ucnv_open = λ name. if text_eq name (codes "Big5-HKSCS") then (pos 4, none) else (pos 0, some 1);
  ucnv_to_u_chars = λ _ _ d. record { status = pos 0; written = pos (length d); buf = d };
}

run_backend-fallback_example :
    run_backend
      (platform sample_nls (some sample_icu))
      950
      (codes "Hi")
      (some (icu_preferred (codes "Big5-HKSCS")))
    ≡ ok (codes "Hi")
unfolding text_eq wrest.Abi.Decode.multi_byte_to_string
run_backend-fallback_example =
    run_backend-fallback sample_nls (some sample_icu) 950 (codes "Big5-HKSCS") (codes "Hi") refl

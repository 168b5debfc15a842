-- ===== src/Abi/Idna.antt =====
-- src/abi/idna.rs: the ASCII form of a host name by the system's ICU, whose answers are a parameter.
use wrest.Abi.Decode.{i32_max, is_failure, is_status}
use wrest.Encoding.Utf8.{from_utf8}
use wrest.Encoding.Utf8RoundTrip.{encode_utf8}
use wrest.Prelude.Int.{ℤ, pos, negsuc}
use wrest.Prelude.Result.{Result, ok_or, reject, ◌>>=◌, ◌>>◌}
use wrest.Prelude.Text.{Text}
use wrest.Prelude.{
  ℕ, Bool, true, false, not, ◌&&◌, ◌||◌, List, Option, none, some, ltb, ◌==◌, any, length,
}

pub data IcuIdnaError : Type 0 where
  unavailable invalid_name : IcuIdnaError

-- The bits of `UIDNAInfo::errors`, those that the source names and any other.
pub data UidnaError : Type 0 where
  label_too_long domain_name_too_long leading_hyphen trailing_hyphen hyphen_3_4 : UidnaError
  other : ℕ → UidnaError

unfoldable pub is_tolerated : UidnaError → Bool
is_tolerated (other _) = false
is_tolerated _ = true

-- The errors are the list of the bits that are set.
unfoldable pub has_rejected_uts46_errors : List UidnaError → Bool
unfolding is_tolerated
has_rejected_uts46_errors errors = any (λ e. not (is_tolerated e)) errors

pub record Answer : Type 0 where
  pub returned : ℤ
  pub status : ℤ
  pub errors : List UidnaError
  pub output : List ℕ

-- `open_uts46`, and `name_to_ascii_utf8` without a buffer and with one of the given length, which it
-- leaves as `output`. The IDNA object is a number that stands for its pointer.
pub record IcuIdnaFunctions : Type 0 where
  pub u_buffer_overflow_error : ℕ
  pub open_uts46 : ℤ × Option ℕ
  pub query_ascii : ℕ → List ℕ → Answer
  pub name_to_ascii_utf8 : ℕ → List ℕ → ℕ → Answer

-- A value that is not negative.
abbrev as_usize : ℤ → Option ℕ
as_usize (pos n) = some n
as_usize (negsuc _) = none

abbrev is_written : ℕ → ℤ → Bool
is_written required (pos n) = n == required
is_written required (negsuc _) = false

module _ (functions : IcuIdnaFunctions) where
  -- The two calls at an open IDNA object.
  unfoldable pub convert_name : ℕ → List ℕ → Result IcuIdnaError Text
  unfolding has_rejected_uts46_errors
  convert_name idna name = do
    let query = functions.query_ascii idna name
    capacity ← ok_or (as_usize query.returned) invalid_name
    reject
        (is_failure query.status && not (is_status functions.u_buffer_overflow_error query.status)
          || has_rejected_uts46_errors query.errors)
        invalid_name
    let answer = functions.name_to_ascii_utf8 idna name capacity
    reject
        (is_failure answer.status
          || has_rejected_uts46_errors answer.errors
          || not (is_written capacity answer.returned))
        invalid_name
    ok_or (from_utf8 answer.output) invalid_name

unfoldable pub idna_to_ascii : Option IcuIdnaFunctions → Text → Result IcuIdnaError Text
unfolding convert_name
idna_to_ascii loaded name = do
  functions ← ok_or loaded unavailable
  reject (ltb i32_max (length (encode_utf8 name))) invalid_name
  reject (is_failure functions.open_uts46.0) invalid_name
  idna ← ok_or functions.open_uts46.1 invalid_name
  convert_name functions idna (encode_utf8 name)

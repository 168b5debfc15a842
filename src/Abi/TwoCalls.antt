-- ===== src/Abi/TwoCalls.antt =====
-- src/abi/winhttp.rs: where the first call leaves the size of a block and the second the block, the
-- text is that of the block, and of a URL without the NUL at its end.
use wrest.Abi.Queries.{Answer, winhttp_query_option_url, winhttp_query_raw_headers}
use wrest.Encoding.Decoders.{from_utf16_lossy}
use wrest.Error.{Error}
use wrest.Prelude.Result.{ok}
use wrest.Prelude.{
  ℕ, suc, ◌*◌, ◌/◌, true, false, List, [], ◌∷◌, ◌++◌, some, ◌==◌, ◌≡◌, refl, ap, arith, take,
  length,
}
use wrest.Util.{strip_nul}

abbrev too_small : ℕ → List ℕ → Answer
too_small code block = record {
  succeeded = false;
  last_error = code;
  size = 2 * length block;
  buf = [];
}

abbrev filled : List ℕ → Answer
filled block = record { succeeded = true; last_error = 0; size = 2 * length block; buf = block }

take-all : (s : List ℕ) → take (length s) s ≡ s
take-all [] = refl
take-all (c ∷ s) = ap (◌∷◌ c) (take-all s)

strip_nul-terminated : (s : List ℕ) → strip_nul (s ++ (0 ∷ [])) ≡ s
unfolding strip_nul
strip_nul-terminated [] = refl
strip_nul-terminated (c ∷ []) = refl
strip_nul-terminated (c ∷ d ∷ s) = ap (◌∷◌ c) (strip_nul-terminated (d ∷ s))

half : (n : ℕ) → (2 * n) / 2 ≡ n
half n = omega arith

not_zero : (n : ℕ) → ((2 * suc n) == 0) ≡ false
not_zero n = ground arith

same : (code : ℕ) → (code == code) ≡ true
same code = ground arith

winhttp_query_raw_headers-block :
    (from_win32 : ℕ → Error) (code c : ℕ) (s : List ℕ)
    → winhttp_query_raw_headers from_win32 code (too_small code (c ∷ s)) (λ _. filled (c ∷ s))
      ≡ ok (from_utf16_lossy (c ∷ s))
unfolding winhttp_query_raw_headers
winhttp_query_raw_headers-block from_win32 code c s =
    rw (same code, half (length (c ∷ s)), not_zero (length s), take-all s) refl

winhttp_query_option_url-terminated :
    (from_win32 : ℕ → Error) (code c : ℕ) (s : List ℕ)
    → winhttp_query_option_url from_win32 code
        (too_small code (c ∷ s ++ (0 ∷ [])))
        (λ _. filled (c ∷ s ++ (0 ∷ [])))
      ≡ some (from_utf16_lossy (c ∷ s))
unfolding winhttp_query_option_url
winhttp_query_option_url-terminated from_win32 code c s =
    rw
      (
        same code,
        half (length (c ∷ s ++ (0 ∷ []))),
        not_zero (length (s ++ (0 ∷ []))),
        take-all (s ++ (0 ∷ [])),
        strip_nul-terminated (c ∷ s),
      )
      refl

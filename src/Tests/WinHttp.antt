-- ===== src/Tests/WinHttp.antt =====
-- The transport at concrete inputs.
use mathlib.Core.Path.{subst}
use wrest.Error.{Error}
use wrest.Prelude.Result.{Result, ok, ok-injective}
use wrest.Prelude.Text.{Text, codes, text_eq, text_eq_iff}
use wrest.Prelude.{
  ℕ, Bool, true, false, not, List, [], ◌∷◌, Option, some, none, ◌≡◌, refl, any, filter, All,
  if◌then◌else◌, ltb, arith, is_some, Bool-cases, inl, inr, ◌&&◌, ◌==◌, zero, suc, sym, ◌∙◌,
}
use wrest.Tests.Url.{sample_url}
use wrest.Url.Types.{Url}
use wrest.WinHttp.Close.{
  new_close_state, finishes, mark_final_callback_seen, closed_and_idle, wakes_iff, opened, entered,
  exited, final_seen, enter_callback, exit_callback, closed_and_idle-Reached,
}
use wrest.WinHttp.Leak.{GoesTo, no_leak}
use wrest.WinHttp.Redirect.{
  Origin, RequestState, not_aborted, from_url, is_aborted, on_redirects,
  sensitive_headers_on_cross_origin,
}
use wrest.WinHttp.Write.Cover.{Covers, write_data_with-Covers, write_data_with-ends}
use wrest.WinHttp.Write.{write_data_with}

-- A handle that is the list of its header names.
abbrev names_carry : List Text → Text → Bool
names_carry [] n = false
names_carry (m ∷ h) n = let rest = names_carry h n in if text_eq n m then true else rest

abbrev without_name : List Text → Text → List Text
without_name [] n = []
without_name (m ∷ h) n = let rest = without_name h n in if text_eq m n then rest else m ∷ rest

abbrev remove_name : List Text → Text → Result Error (List Text)
remove_name h n = ok (without_name h n)

without_name-removes : (h : List Text) (n : Text) → names_carry (without_name h n) n ≡ false
without_name-removes [] n = refl
without_name-removes (m ∷ h) n = elim (Bool-cases (text_eq m n)) [
  | inl same ↦ rw same (without_name-removes h n)
  | inr other ↦ ground (arith, without_name-removes h n, differ m n other)
]
  where
    differ : (m n : Text) → text_eq m n ≡ false → text_eq n m ≡ false
    differ m n h = elim (Bool-cases (text_eq n m)) [
      | inr other ↦ other
      | inl same ↦ cc (h, (text_eq_iff m n).1 (sym ((text_eq_iff n m).0 same)))
    ]

without_name-keeps :
    (h : List Text) (n m : Text)
    → names_carry h m ≡ false
    → names_carry (without_name h n) m ≡ false
without_name-keeps [] n m c = refl
without_name-keeps (k ∷ h) n m c = ground (arith, without_name-keeps h n m)

abbrev at_sample : RequestState
at_sample = record {
  current_origin = from_url sample_url;
  callback_abort = not_aborted;
  close_calls = 0;
}

not_idle : closed_and_idle new_close_state ≡ false
unfolding closed_and_idle
not_idle = refl

removes :
    (h : List Text) (n : Text) (h' : List Text) → remove_name h n ≡ ok h' → names_carry h' n ≡ false
removes h n h' e =
    subst (λ x. names_carry x n ≡ false) (ok-injective _ h' e) (without_name-removes h n)

adds_none :
    (h : List Text) (n : Text) (h' : List Text) (m : Text)
    → remove_name h n ≡ ok h'
    → names_carry h m ≡ false
    → names_carry h' m ≡ false
adds_none h n h' m e c =
    subst (λ x. names_carry x m ≡ false) (ok-injective _ h' e) (without_name-keeps h n m c)

abbrev hops : List (Result Error Url)
hops = ok sample_url ∷ ok sample_url ∷ []

abbrev cookies : List Text
cookies = codes "Cookie" ∷ []

not_aborted_yet :
    is_aborted (on_redirects remove_name at_sample cookies hops).0.callback_abort ≡ false
unfolding on_redirects is_aborted wrest.WinHttp.Redirect.same_origin text_eq from_url
    wrest.Prelude.Text.lower
not_aborted_yet = refl

cookie_kept :
    names_carry (on_redirects remove_name at_sample cookies hops).1 (codes "Cookie") ≡ true
unfolding on_redirects wrest.WinHttp.Redirect.same_origin text_eq from_url wrest.Prelude.Text.lower
cookie_kept = refl

cookie_is_sensitive : any (λ m. text_eq (codes "Cookie") m) sensitive_headers_on_cross_origin ≡ true
unfolding text_eq
cookie_is_sensitive = refl

no_leak_example : All (GoesTo at_sample.current_origin) hops
no_leak_example =
    no_leak remove_name names_carry removes adds_none hops at_sample cookies (codes "Cookie")
      cookie_is_sensitive not_aborted_yet cookie_kept

-- Writes of at most three bytes.
abbrev three_bytes : ℕ → ℕ → ℕ → Result Error ℕ
three_bytes n ptr len = ok (if ltb len 3 then len else 3)

all_written : (write_data_with three_bytes 1000 8 sample_url).1 ≡ some (ok tt)
unfolding write_data_with
all_written = refl

write_data_with-Covers_example :
    Covers three_bytes 1000 8 sample_url 0 (write_data_with three_bytes 1000 8 sample_url).0
write_data_with-Covers_example = write_data_with-Covers three_bytes 1000 8 sample_url all_written

write_data_with-ends_example : is_some (write_data_with three_bytes 1000 8 sample_url).1 ≡ true
write_data_with-ends_example = write_data_with-ends three_bytes 1000 8 sample_url

closed_and_idle-Reached_example :
    closed_and_idle
      (mark_final_callback_seen (exit_callback (enter_callback new_close_state).0).0).0
    ≡ (true && 0 == 0)
closed_and_idle-Reached_example = closed_and_idle-Reached (final_seen (exited (entered opened)))

wakes_iff_example :
    (mark_final_callback_seen new_close_state).1
    ≡ closed_and_idle (mark_final_callback_seen new_close_state).0
wakes_iff_example = wakes_iff (finishes new_close_state) not_idle

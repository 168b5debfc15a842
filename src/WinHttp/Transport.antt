-- ===== src/WinHttp/Transport.antt =====
-- src/winhttp.rs: an operation on a request. `W` is what WinHTTP and the peer keep for the request: a
-- parameter, with the wrappers of src/abi that act on it. An awaited operation is its start, the wait for
-- its callback and the conversion of the event, which `WinHttp.Events` and `Callback` model;
-- `write_data` writes a whole buffer by the loop of `WinHttp.Write`.
use wrest.Error.{Error, with_url}
use wrest.Prelude.Result.{Result, ok, err}
use wrest.Prelude.Text.{Text}
use wrest.Prelude.{ℕ, Bool, List, Option, ◌≡◌, refl}
use wrest.Url.Types.{Url}

-- What an operation leaves of the request, and its result.
abbrev pub Op : Type 0 → Type 0 → Type 0
Op W A = W → W × Result Error A

module _ {W : Type 0} where
  abbrev pub pure : {A : Type 0} → A → Op W A
  pure a w = (w, ok a)

  abbrev pub fail : {A : Type 0} → Error → Op W A
  fail e w = (w, err e)

  abbrev pub went_on : {A B : Type 0} → (A → Op W B) → W × Result Error A → W × Result Error B
  went_on next (w, ok a) = next a w
  went_on next (w, err e) = (w, err e)

  infixl 5 ◌>>=◌
  -- `?`
  abbrev pub ◌>>=◌ : {A B : Type 0} → Op W A → (A → Op W B) → Op W B
  (first >>= next) w = went_on next (first w)

  infixl 5 ◌>>◌
  abbrev pub ◌>>◌ : {B : Type 0} → Op W (Unit {0}) → Op W B → Op W B
  first >> rest = first >>= λ _. rest

  -- The operation that a chain with a result went on with.
  pub went_on-eq-ok :
      {A B : Type 0} (next : A → Op W B) (first : W × Result Error A) {b : B}
      → (went_on next first).1 ≡ ok b
      → (a : A) × (first.1 ≡ ok a) × (went_on next first ≡ next a first.0)
  went_on-eq-ok next (w, ok a) h = (a, refl, refl)
  went_on-eq-ok next (w, err e) h = cc

  -- A result that was computed without the request.
  abbrev pub lift : {A : Type 0} → Result Error A → Op W A
  lift r w = (w, r)

  -- `url_context`
  abbrev pub context_of : {A : Type 0} → Url → W × Result Error A → W × Result Error A
  context_of url (w, ok a) = (w, ok a)
  context_of url (w, err e) = (w, err (with_url e url))

  pub context_of-state :
      {A : Type 0} (url : Url) (r : W × Result Error A) → (context_of url r).0 ≡ r.0
  context_of-state url (w, ok a) = refl
  context_of-state url (w, err e) = refl

  abbrev pub at_url : {A : Type 0} → Url → Op W A → Op W A
  at_url url op w = context_of url (op w)

-- The wrappers and the awaited operations. `send_request` has the inline data and the total length.
pub record Winhttp (W : Type 0) : Type 0 where
  pub connect : Text → ℕ → Op W (Unit {0})
  pub open_request : Text → Text → Bool → Op W (Unit {0})
  pub set_context_value : Op W (Unit {0})
  pub set_proxy_direct : Op W (Unit {0})
  pub set_proxy_named : Text → Op W (Unit {0})
  pub set_proxy_credentials : Text → Text → Op W (Unit {0})
  pub set_no_client_cert : Op W (Unit {0})
  pub set_security_flags : Op W (Unit {0})
  pub add_request_header : Text → Op W (Unit {0})
  pub send_request : List ℕ → ℕ → Op W (Unit {0})
  pub write_data : List ℕ → Op W (Unit {0})
  pub receive_response : Op W (Unit {0})
  -- whether a callback has aborted the request, and the URL that it is at
  pub is_aborted : W → Bool
  pub query_option_url : W → Option Text

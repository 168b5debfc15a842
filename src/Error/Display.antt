-- ===== src/Error/Display.antt =====
-- src/error.rs: the tests of the kind and the `Display` of an error. The reason phrase of a status code
-- is a parameter, and its digits are those of the number, since a status code has three.
use wrest.Error.{
  Error, ErrorKind, with_url, builder, connect, timeout, status, request, body, redirect, decode,
  upgrade,
}
use wrest.Prelude.Text.{Text, codes, decimal}
use wrest.Prelude.{ℕ, Bool, true, false, Option, none, some, [], ◌++◌, ◌≡◌, ap, if◌then◌else◌}
use wrest.Response.Types.{is_client_error}
use wrest.Url.Types.{Url}

unfoldable pub is_builder : Error → Bool
is_builder e = elim e.kind [ builder ↦ true | _ ↦ false ]

unfoldable pub is_connect : Error → Bool
is_connect e = elim e.kind [ connect ↦ true | _ ↦ false ]

unfoldable pub is_timeout : Error → Bool
is_timeout e = elim e.kind [ timeout ↦ true | _ ↦ false ]

unfoldable pub is_status : Error → Bool
is_status e = elim e.kind [ status ↦ true | _ ↦ false ]

unfoldable pub is_request : Error → Bool
is_request e = elim e.kind [ request ↦ true | _ ↦ false ]

unfoldable pub is_body : Error → Bool
is_body e = elim e.kind [ body ↦ true | _ ↦ false ]

unfoldable pub is_redirect : Error → Bool
is_redirect e = elim e.kind [ redirect ↦ true | _ ↦ false ]

unfoldable pub is_decode : Error → Bool
is_decode e = elim e.kind [ decode ↦ true | _ ↦ false ]

unfoldable pub is_upgrade : Error → Bool
is_upgrade e = elim e.kind [ upgrade ↦ true | _ ↦ false ]

-- The part of the message for a URL.
abbrev url_suffix : Option Url → Text
url_suffix none = []
url_suffix (some url) = codes " for url (" ++ (url.serialized ++ codes ")")

module _ (canonical_reason : ℕ → Option Text) where
  unfoldable pub status_text : Option ℕ → Text
  status_text none = codes "HTTP status error"
  status_text (some code) =
      let prefix : Text =
        if is_client_error code
        then codes "HTTP status client error"
        else codes "HTTP status server error" in
      let reason : Text = elim (canonical_reason code) [
        | none ↦ codes "<unknown status code>"
        | some r ↦ r
      ] in
      prefix ++ (codes " (" ++ (decimal code ++ (codes " " ++ (reason ++ codes ")"))))

  unfoldable pub kind_text : ErrorKind → Option ℕ → Text
  unfolding status_text
  kind_text builder code = codes "builder error"
  kind_text request code = codes "error sending request"
  kind_text body code = codes "request or response body error"
  kind_text decode code = codes "error decoding response body"
  kind_text redirect code = codes "error following redirect"
  kind_text connect code = codes "error trying to connect"
  kind_text timeout code = codes "operation timed out"
  kind_text status code = status_text code
  kind_text upgrade code = codes "error upgrading connection"

  -- `Display`
  unfoldable pub display : Error → Text
  unfolding kind_text
  display e = kind_text e.kind e.status ++ url_suffix e.url

  -- Of the URL of an error only its serialized form is shown.
  display-with_url :
      (e : Error) (u v : Url)
      → u.serialized ≡ v.serialized
      → display (with_url e u) ≡ display (with_url e v)
  unfolding display with_url
  display-with_url e u v same =
      ap (λ (t : Text). kind_text e.kind e.status ++ (codes " for url (" ++ (t ++ codes ")"))) same

-- ===== src/Client/Downgrade.antt =====
-- src/client.rs, `translate_blocked_https_downgrade`: which replies are refused as a downgrade.
use wrest.Client.Inner.{translate_blocked_https_downgrade, redirect_target, downgrade_error}
use wrest.Error.{Error}
use wrest.Http.{HeaderMapLib, get}
use wrest.Prelude.Result.{ok, Result-cases}
use wrest.Prelude.Text.{Text, codes}
use wrest.Prelude.{List, ℕ, ◌≤◌, ◌<◌, true, false, inl, inr, some, arith, ◌≡◌, Option-cases}
use wrest.Response.Types.{RawResponse}
use wrest.Url.Join.{join}
use wrest.Url.Parse.{UriLib}
use wrest.Url.Types.{Url}

module _ (http : HeaderMapLib) (uri : UriLib) where
  -- The `Location` of a reply, read as text and joined to its URL.
  pub record IsLocation (raw : RawResponse http.HeaderMap) (target : Url) : Type 0 where
    pub value : List ℕ
    pub location : Text
    pub has_value : get http raw.headers (codes "location") ≡ some value
    pub is_text : http.to_str value ≡ some location
    pub joined : join uri raw.url location ≡ ok target

  -- A redirection of an https URL to one without https.
  pub record IsDowngrade (raw : RawResponse http.HeaderMap) : Type 0 where
    pub target : Url
    pub redirection : (300 ≤ raw.status) × (raw.status < 400)
    pub from_https : raw.url.is_https ≡ true
    pub has_location : IsLocation raw target
    pub to_http : target.is_https ≡ false

  redirect_target-IsLocation :
      (raw : RawResponse http.HeaderMap) (target : Url)
      → redirect_target http uri raw ≡ some target
      → IsLocation raw target
  unfolding redirect_target
  redirect_target-IsLocation raw target h =
      elim (Option-cases (get http raw.headers (codes "location"))) [
        | inl n ↦ absurd (ground (arith, h, n))
        | inr (value, has) ↦ elim (Option-cases (http.to_str value)) [
          | inl n ↦ absurd (ground (arith, h, has, n))
          | inr (location, text) ↦ elim (Result-cases (join uri raw.url location)) [
            | inr (e, failed) ↦ absurd (ground (arith, h, has, text, failed))
            | inl (found, is) ↦ record {
              value = value;
              location = location;
              has_value = has;
              is_text = text;
              joined = ground (arith, h, has, text, is);
            }
          ]
        ]
      ]

  IsLocation-redirect_target :
      (raw : RawResponse http.HeaderMap) (target : Url)
      → IsLocation raw target
      → redirect_target http uri raw ≡ some target
  unfolding redirect_target
  IsLocation-redirect_target raw target l = ground (arith, l.has_value, l.is_text, l.joined)

  pub translate-IsDowngrade :
      (raw : RawResponse http.HeaderMap) (e : Error)
      → translate_blocked_https_downgrade http uri raw ≡ some e
      → (e ≡ downgrade_error raw.url) × IsDowngrade raw
  unfolding translate_blocked_https_downgrade
  translate-IsDowngrade raw e h = elim (Option-cases (redirect_target http uri raw)) [
    | inl n ↦ absurd (ground (arith, h, n))
    | inr (target, t) ↦ (
      ground (arith, h, t),
      record {
        target = target;
        redirection = (ground (arith, h, t), ground (arith, h, t));
        from_https = ground (arith, h, t);
        has_location = redirect_target-IsLocation raw target t;
        to_http = ground (arith, h, t);
      },
    )
  ]

  pub IsDowngrade-translate :
      (raw : RawResponse http.HeaderMap)
      → IsDowngrade raw
      → translate_blocked_https_downgrade http uri raw ≡ some (downgrade_error raw.url)
  unfolding translate_blocked_https_downgrade
  IsDowngrade-translate raw d =
      let t = IsLocation-redirect_target raw d.target d.has_location in
      ground (arith, t, d.redirection, d.from_https, d.to_http)

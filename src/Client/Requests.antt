-- ===== src/Client/Requests.antt =====
-- src/client.rs: the methods of `Client` that start a request. What `into_url` gives is an input.
use wrest.Client.Builder.{ClientInner}
use wrest.Error.{Error}
use wrest.Prelude.Result.{Result}
use wrest.Prelude.Text.{Text, codes}
use wrest.Request.Auth.{new_builder}
use wrest.Request.{RequestBuilder}
use wrest.Url.Types.{Url}

module _ {W HeaderMap Uri : Type 0} (client : ClientInner W HeaderMap Uri) where
  unfoldable pub request : Text → Result Error Url → RequestBuilder HeaderMap
  unfolding new_builder
  request method url = new_builder client.default_headers method url

  unfoldable pub get : Result Error Url → RequestBuilder HeaderMap
  unfolding request
  get url = request (codes "GET") url

  unfoldable pub post : Result Error Url → RequestBuilder HeaderMap
  unfolding request
  post url = request (codes "POST") url

  unfoldable pub put : Result Error Url → RequestBuilder HeaderMap
  unfolding request
  put url = request (codes "PUT") url

  unfoldable pub patch : Result Error Url → RequestBuilder HeaderMap
  unfolding request
  patch url = request (codes "PATCH") url

  unfoldable pub delete : Result Error Url → RequestBuilder HeaderMap
  unfolding request
  delete url = request (codes "DELETE") url

  unfoldable pub head : Result Error Url → RequestBuilder HeaderMap
  unfolding request
  head url = request (codes "HEAD") url

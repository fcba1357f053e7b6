-- ===== src/Cognito/TokenEndpoint.antt =====
-- cognito_service.py: the requests to /oauth2/token.
use secure_multi_tenant_saas.Prelude.{
  ℕ, String, Option, none, some, [], ◌∷◌, truthy, get_or, eqb, if◌then◌else◌,
}
use secure_multi_tenant_saas.Prelude.Dict.{Dict}
use secure_multi_tenant_saas.Prelude.Exec.{Result, ok, err, and_then, oauth_exchange, value_error}
use secure_multi_tenant_saas.Config.{Config}

-- The keys of the JSON body that the program reads. Of the value of `expires_in` it is kept what
-- `int` makes of it: seconds, or a `TypeError` (of `null`) or a `ValueError` (of a text).
pub record TokenBody : Type 0 where
  pub id_token : Option String
  pub access_token : Option String
  pub refresh_token : Option String
  pub expires_in : Option (Result ℕ)
  pub token_type : Option String

-- What `requests.post` does: it raises a `RequestException`, or there is a status and a body,
-- `none` if that is no JSON.
pub data HttpReply : Type 0 where
  network_error : HttpReply
  reply : ℕ → Option TokenBody → HttpReply

-- The basic authentication and the form that are posted.
abbrev pub Endpoint : Type 0
Endpoint = Option (String × String) → Dict String → HttpReply

pub record Tokens : Type 0 where
  pub id_token : Option String
  pub access_token : Option String
  pub refresh_token : Option String
  pub expires_in : Result ℕ
  pub token_type : String

basic_auth : Config → Option (String × String)
basic_auth config =
    if truthy config.cognito_app_client_secret
    then some (config.cognito_app_client_id, config.cognito_app_client_secret)
    else none

-- `response.json()`
abbrev body_of : Option TokenBody → Result TokenBody
body_of none = err value_error
body_of (some body) = ok body

abbrev read_reply : HttpReply → Result TokenBody
read_reply network_error = err oauth_exchange
read_reply (reply status body) = if eqb status 200 then body_of body else err oauth_exchange

token_request : Config → Endpoint → Dict String → Result TokenBody
unfolding basic_auth
token_request config post payload = read_reply (post (basic_auth config) payload)

abbrev tokens_of : TokenBody → Tokens
tokens_of body = record {
  id_token = body.id_token;
  access_token = body.access_token;
  refresh_token = body.refresh_token;
  expires_in = get_or body.expires_in (ok 3600);
  token_type = get_or body.token_type "Bearer";
}

-- A value of `None` is left out of the form that is sent.
abbrev verifier_field : Option String → Dict String
verifier_field none = []
verifier_field (some v) = ("code_verifier", v) ∷ []

unfoldable pub exchange_code_for_tokens : Config → Endpoint → String → Option String → Result Tokens
unfolding token_request
exchange_code_for_tokens config post code code_verifier =
    and_then
      (token_request config post (
        ("grant_type", "authorization_code")
        ∷ ("client_id", config.cognito_app_client_id)
        ∷ ("code", code)
        ∷ ("redirect_uri", config.cognito_redirect_uri)
        ∷ verifier_field code_verifier))
      λ body. ok (tokens_of body)

-- The result has no refresh token.
unfoldable pub refresh_tokens : Config → Endpoint → String → Result Tokens
unfolding token_request
refresh_tokens config post refresh_token =
    and_then
      (token_request config post (
        ("grant_type", "refresh_token")
        ∷ ("client_id", config.cognito_app_client_id)
        ∷ ("refresh_token", refresh_token)
        ∷ []))
      λ body. ok (record (tokens_of body) { refresh_token = none })

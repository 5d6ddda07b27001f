-- ===== src/Engine/Scheme.antt =====
-- security/scheme and security/authc as the middleware sees them: what an authentication scheme and the
-- application's providers answer, and what the application knows of its schemes.
use aah.Prelude.{Bool, List, Option}
use aah.Text.{Text, codes}
use aah.Authz.Info.{AuthorizationInfo}
use aah.Session.{Session}
use aah.Engine.Context.{Req, Principal, AuthenticationInfo, Context}

pub record FormAuth : Type 0 where
  pub login_url : Text
  pub login_submit_url : Text
  pub login_failure_url : Text
  pub default_target_url : Text
  pub is_always_to_default_target : Bool

-- `auth_url` is ProviderAuthURL, with the state; `callback` is ValidateCallback on the state of the
-- session, `false` an error
pub record OAuth2 : Type 0 where
  pub login_url : Text
  pub redirect_url : Text
  pub success_url : Text
  pub auth_url : Req → Text × Text
  pub callback : Text → Req → Bool

pub data SchemeKind : Type 0 where
  form : FormAuth → SchemeKind
  oauth2 : OAuth2 → SchemeKind
  basic : Text → SchemeKind
  generic : SchemeKind

-- the errors that are told apart; `refused` are the four of a failed authentication
pub data AuthcError : Type 0 where
  refused internal unavailable another : AuthcError

pub data Authenticated : Type 0 where
  ok : AuthenticationInfo → Authenticated
  err : AuthcError → Authenticated

-- `principals` is the method Principal of a scheme that has it, whose result is `none` for an error;
-- `do_authenticate` is DoAuthenticate on the extracted token, with a nil info as `another`;
-- `get_authorization_info` is that of the application's authorizer, `none` for nil
pub record Scheme : Type 0 where
  pub key : Text
  pub kind : SchemeKind
  pub principals : Option (Context → Option (List Principal))
  pub do_authenticate : Req → Authenticated
  pub get_authorization_info : Option AuthenticationInfo → Option AuthorizationInfo

-- `fresh_session` is what NewSession returns; `form_rt` is the form value `_rt`, and `url_text` the URL
-- of the request
pub record AccessEnvironment : Type 0 where
  pub auth_scheme_exists : Bool
  pub auth_scheme : Text → Option Scheme
  pub is_stateful : Bool
  pub fresh_session : Session
  pub form_rt : Req → Text
  pub url_text : Req → Text
  pub query_escape : Text → Text

abbrev pub key_auth_scheme : Text
key_auth_scheme = codes "_aahAuthScheme"

abbrev pub key_authc_info : Text
key_authc_info = codes "_aahAuthcInfo"

abbrev pub key_oauth2_state : Text
key_oauth2_state = codes "_aahOAuth2State"

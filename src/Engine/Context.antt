-- ===== src/Engine/Context.antt =====
-- context.go: the state of one request as the middlewares see and change it. What they read of the
-- request is `Req`: a header that may have several values is their list.
use aah.Prelude.{Bool, List, Option}
use aah.Text.{Text}
use aah.Router.Tree.Lookup.{Params}
use aah.Router.Domain.{Domain, Route, Request}
use aah.Authz.Info.{AuthorizationInfo}
use aah.Session.{Session}
use aah.Engine.Reply.{Reply}

pub data FlowResult : Type 0 where
  flow_cont flow_abort : FlowResult

-- `http` is the request of net/http, with its method, its headers about methods and its escaped path
pub record Req : Type 0 where
  pub host : Text
  pub method : Text
  pub path : Text
  pub scheme : Text
  pub http : Request
  pub origin : List Text
  pub access_control_headers : List Text
  pub referer : Text
  pub csrf_cookie : Option Text
  pub csrf_header : Text
  pub csrf_form : Text

-- security/authc: who the subject is, without the credential
pub record Principal : Type 0 where
  pub realm : Text
  pub claim : Text
  pub value : Text
  pub is_primary : Bool

pub record AuthenticationInfo : Type 0 where
  pub credential : Text
  pub principals : List Principal

-- the cookie that the anti-CSRF part writes or clears
pub data CsrfCookie : Type 0 where
  written : Text → CsrfCookie
  cleared : CsrfCookie

pub record Context : Type 0 where
  pub req : Req
  pub url_path : Text
  pub domain : Option Domain
  pub route : Option Route
  pub url_params : Option Params
  pub reply : Reply
  pub abort : Bool
  pub session : Option Session
  pub authentication_info : Option AuthenticationInfo
  pub authorization_info : Option AuthorizationInfo
  pub csrf_secret : Option Text
  pub csrf_set_cookie : Option CsrfCookie

abbrev pub with_reply : Context → Reply → Context
with_reply ctx r = record ctx { reply = r }

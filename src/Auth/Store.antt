-- ===== src/Auth/Store.antt =====
-- ui/src/stores/authStore.ts: the store and the cookies that each of its setters writes.
use wgpanelne.Prelude.{ℕ, Option, none, some, if◌then◌else◌, []}
use wgpanelne.Js.Strings.{Text, codes, truthy}
use wgpanelne.Auth.Cookies.{Cookies}

pub record AuthAdmin : Type 0 where
  pub user_id : ℕ
  pub username : Text

-- `state.auth`, without its functions.
pub record Auth : Type 0 where
  pub admin : Option AuthAdmin
  pub access_token : Text

abbrev pub token_key : Text
token_key = codes "access_token"

abbrev pub username_key : Text
username_key = codes "username"

-- `cookieState ? cookieState : ''`
abbrev pub text_or_empty : Option Text → Text
text_or_empty none = []
text_or_empty (some t) = if truthy t then t else []

module _ (C : Cookies) where
  -- The cookie jar of the browser and the state of the store.
  pub record Session : Type 0 where
    pub jar : C.Jar
    pub auth : Auth

  unfoldable pub init : C.Jar → Session
  init jar = record {
    jar = jar;
    auth = record { admin = none; access_token = text_or_empty (C.get token_key jar) };
  }

  unfoldable pub set_admin : AuthAdmin → Session → Session
  set_admin admin s = record {
    jar = C.set username_key admin.username s.jar;
    auth = record { admin = some admin; access_token = s.auth.access_token };
  }

  unfoldable pub set_access_token : Text → Session → Session
  set_access_token token s = record {
    jar = C.set token_key token s.jar;
    auth = record { admin = s.auth.admin; access_token = token };
  }

  unfoldable pub reset_access_token : Session → Session
  reset_access_token s = record {
    jar = C.remove token_key s.jar;
    auth = record { admin = s.auth.admin; access_token = [] };
  }

  unfoldable pub reset : Session → Session
  reset s = record {
    jar = C.remove username_key (C.remove token_key s.jar);
    auth = record { admin = none; access_token = [] };
  }

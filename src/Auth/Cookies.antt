-- ===== src/Auth/Cookies.antt =====
-- js-cookie, as a parameter: a cookie that was set is read back, a removed one is not there, and
-- other cookies are left alone.
use wgpanelne.Prelude.{◌≡◌, Option, none, some, if◌then◌else◌}
use wgpanelne.Js.Strings.{Text, text_eq}

pub record Cookies : Type 1 where
  pub Jar : Type 0
  pub get : Text → Jar → Option Text
  pub set : Text → Text → Jar → Jar
  pub remove : Text → Jar → Jar
  pub get-set :
      (j k v : Text) (c : Jar) → get j (set k v c) ≡ (if text_eq j k then some v else get j c)
  pub get-remove :
      (j k : Text) (c : Jar) → get j (remove k c) ≡ (if text_eq j k then none else get j c)

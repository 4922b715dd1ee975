-- ===== src/Zod/Syntax.antt =====
-- The combinators of zod that the sources use.
use wgpanelne.Prelude.{ℕ, Bool, List, [], ◌∷◌}
use wgpanelne.Js.Strings.{Text}

mutual
  pub data Schema : Type 0 where
    -- `z.string()`, and `.min(n, message)` on it
    string : Schema
    min_length : ℕ → Text → Schema → Schema
    -- `z.number()`, with `.int()`, `.positive()` and `.min(n, message)`
    number : Schema
    int : Schema → Schema
    positive : Schema → Schema
    min_number : ℕ → Text → Schema → Schema
    boolean : Schema
    -- `z.enum([...])` and `z.literal(...)`
    enum : List Text → Schema
    literal : Text → Schema
    optional : Schema → Schema
    nullable : Schema → Schema
    -- `.default(b)`
    default_bool : Bool → Schema → Schema
    -- `s.or(t)`
    either : Schema → Schema → Schema
    array : Schema → Schema
    object : Shape → Schema

  pub data Shape : Type 0 where
    done : Shape
    entry : Text → Schema → Shape → Shape

unfoldable pub names : Shape → List Text
names done = []
names (entry k s sh) = k ∷ names sh

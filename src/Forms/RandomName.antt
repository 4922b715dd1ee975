-- ===== src/Forms/RandomName.antt =====
-- ui/src/features/shared-components/simple-field.tsx: a field of a form, and the random name.
-- `roll i` is `Math.floor(Math.random() * chars.length)` in turn `i`.
use wgpanelne.Prelude.{
  ℕ, zero, suc, ◌+◌, ◌<◌, ◌≡◌, refl, ap, ◌∙◌, Bool, true, false, ◌&&◌, ◌||◌, Option, none, some, [],
  ◌∷◌, ◌++◌, if◌then◌else◌, arith, ltb, leb, length, length-append, all, All, All-append,
}
use wgpanelne.Js.Strings.{Text, codes, text_eq}
use wgpanelne.Js.Trim.{is_space, trim_end, trim}
use wgpanelne.Js.Trim.Laws.{NoSpace, trim_start_stop, trim_end_stop}

abbrev pub chars : Text
chars = codes "ABCDEFGHIJKLMNOPQRSTUVWXYZabcdefghijklmnopqrstuvwxyz0123456789"

-- `s.charAt(n)`, which is empty behind the end.
abbrev pub char_at : Text → ℕ → Text
char_at [] n = []
char_at (c ∷ s) zero = c ∷ []
char_at (c ∷ s) (suc n) = char_at s n

-- The loop at `i`; `none` is a loop that has not ended.
unfoldable pub random_loop : (ℕ → ℕ) → ℕ → ℕ → Text → Option Text
random_loop roll zero i s = none
random_loop roll (suc fuel) i s =
    let rest = random_loop roll fuel (suc i) (s ++ char_at chars (roll i)) in
    if ltb i 10 then rest else some s

unfoldable pub random_name : (ℕ → ℕ) → ℕ → Option Text
unfolding random_loop
random_name roll fuel = random_loop roll fuel 0 []

-- The field: its value, and the callbacks that focus it.
pub record SimpleField : Type 0 where
  pub name : Text
  pub value : Option Text
  pub focusing : ℕ

-- The button that makes a name is drawn.
abbrev pub has_dice : SimpleField → Bool
has_dice f = text_eq f.name (codes "name")

-- `String(value ?? '')`
abbrev pub input_value : SimpleField → Text
input_value f = elim f.value [ none ↦ [] | some t ↦ t ]

abbrev pub type_value : Text → SimpleField → SimpleField
type_value t f = record f { value = some t }

-- `onClick` of the button, with the name that the loop made.
abbrev pub generate : Text → SimpleField → SimpleField
generate s f = record f { value = some s; focusing = suc f.focusing }

unfoldable pub is_alphanumeric : ℕ → Bool
is_alphanumeric c = (leb 48 c && leb c 57) || (leb 65 c && leb c 90) || (leb 97 c && leb c 122)

abbrev pub Alphanumeric : Text → Type 0
Alphanumeric = All (λ c. is_alphanumeric c ≡ true)

-- A name of ten letters and digits, which trimming leaves as it is.
pub data IsName : Option Text → Type 0 where
  is_name : (s : Text) → length s ≡ 10 → Alphanumeric s → trim s ≡ s → IsName (some s)

alphanumeric-ne_space : (c : ℕ) → is_alphanumeric c ≡ true → is_space c ≡ false
unfolding is_alphanumeric is_space
alphanumeric-ne_space c h = ground arith

Alphanumeric-NoSpace : (s : Text) → Alphanumeric s → NoSpace s
Alphanumeric-NoSpace [] h = tt
Alphanumeric-NoSpace (c ∷ s) (h, hs) = (alphanumeric-ne_space c h, Alphanumeric-NoSpace s hs)

trim_end-NoSpace : (s : Text) → NoSpace s → trim_end s ≡ s
unfolding trim_end
trim_end-NoSpace [] h = refl
trim_end-NoSpace (c ∷ s) (h, hs) = trim_end_stop [] c s h ∙ ap (λ t. c ∷ t) (trim_end-NoSpace s hs)

trim-NoSpace : (s : Text) → NoSpace s → trim s ≡ s
unfolding trim
trim-NoSpace [] h = refl
trim-NoSpace (c ∷ s) (h, hs) = rw (trim_end-NoSpace (c ∷ s) (h, hs)) (trim_start_stop c s h)

chars-alphanumeric : all is_alphanumeric chars ≡ true
unfolding is_alphanumeric
chars-alphanumeric = refl

char_at_lem :
    (cs : Text) (n : ℕ)
    → all is_alphanumeric cs ≡ true
    → n < length cs
    → (length (char_at cs n) ≡ 1) × Alphanumeric (char_at cs n)
char_at_lem [] n h l = elim l [ ]
char_at_lem (c ∷ cs) zero h l = (refl, (ground (arith, h), tt))
char_at_lem (c ∷ cs) (suc n) h l = char_at_lem cs n (ground (arith, h)) (omega (arith, l))

random_loop-IsName :
    (roll : ℕ → ℕ) (fuel k i : ℕ) (s : Text)
    → ((j : ℕ) → roll j < 62)
    → i + k ≡ 10
    → k < fuel
    → length s ≡ i
    → Alphanumeric s
    → IsName (random_loop roll fuel i s)
unfolding random_loop
random_loop-IsName roll zero k i s rolls e enough l h = elim enough [ ]
random_loop-IsName roll (suc fuel) zero i s rolls e enough l h =
    let over : ltb i 10 ≡ false = ground (arith, e) in
    rw over (is_name s (omega (arith, l, e)) h (trim-NoSpace s (Alphanumeric-NoSpace s h)))
random_loop-IsName roll (suc fuel) (suc k) i s rolls e enough l h =
    let more : ltb i 10 ≡ true = ground (arith, e) in
    let (one, alphanumeric) = char_at_lem chars (roll i) chars-alphanumeric (rolls i) in
    rw more (
      random_loop-IsName roll fuel k (suc i) (s ++ char_at chars (roll i)) rolls (omega (arith, e))
        (omega (arith, enough)) (omega (arith, length-append s (char_at chars (roll i)), one, l))
        (All-append (λ c. is_alphanumeric c ≡ true) s (char_at chars (roll i)) h alphanumeric))

-- The loop ends in its eleventh test: with any fuel above ten, and whatever positions of `chars` are
-- drawn, it returns a name of ten letters and digits, without a blank that trimming would take.
pub random_name-IsName :
    (roll : ℕ → ℕ) (fuel : ℕ) → ((j : ℕ) → roll j < 62) → 10 < fuel → IsName (random_name roll fuel)
unfolding random_name
random_name-IsName roll fuel rolls enough =
    random_loop-IsName roll fuel 10 0 [] rolls refl enough refl tt

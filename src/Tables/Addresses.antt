-- ===== src/Tables/Addresses.antt =====
-- The order in which addresses are sorted.
use wgpanelne.Prelude.{
  ℕ, ◌+◌, ◌*◌, ◌<◌, ◌≡◌, refl, ap, ◌∙◌, false, Option, none, some, List, [], ◌∷◌, ◌++◌, ◌==◌,
  get_elem?, ltb, arith, All-append, Bool-cases, inl, inr,
}
use wgpanelne.Prelude.Int.{ℤ, pos, ◌-ℤ◌, pos_part, neg_part, neg_ℤ, -ℤ_anti}
use wgpanelne.Js.Strings.{Text, Lacks}
use wgpanelne.Js.Split.{split, split-append, split-Lacks, first_part-append}
use wgpanelne.Js.Decimal.{to_string, is_digit}
use wgpanelne.Js.Decimal.Laws.{AllDigit, to_string-AllDigit, parse_int-to_string}
use wgpanelne.Tables.Sorting.{Number, get_ip_parts, differs, minus, compare_at, compare_ips}

-- `-x`
abbrev pub negated : Number → Number
negated none = none
negated (some a) = some (neg_ℤ a)

differs_sym : (p q : Option Number) → differs p q ≡ differs q p
unfolding differs
differs_sym none none = refl
differs_sym none (some none) = refl
differs_sym none (some (some b)) = refl
differs_sym (some none) none = refl
differs_sym (some none) (some none) = refl
differs_sym (some none) (some (some b)) = refl
differs_sym (some (some a)) none = refl
differs_sym (some (some a)) (some none) = refl
differs_sym (some (some a)) (some (some b)) = ground arith

minus_anti : (p q : Option Number) → minus p q ≡ negated (minus q p)
unfolding minus
minus_anti none none = refl
minus_anti none (some none) = refl
minus_anti none (some (some b)) = refl
minus_anti (some none) none = refl
minus_anti (some none) (some none) = refl
minus_anti (some none) (some (some b)) = refl
minus_anti (some (some a)) none = refl
minus_anti (some (some a)) (some none) = refl
minus_anti (some (some a)) (some (some b)) = ap some (-ℤ_anti a b)

compare_at_anti :
    (is : List ℕ) (ps qs : List Number) → compare_at is ps qs ≡ negated (compare_at is qs ps)
unfolding compare_at
compare_at_anti [] ps qs = refl
compare_at_anti (i ∷ is) ps qs = elim (Bool-cases (differs (get_elem? qs i) (get_elem? ps i))) [
  | inl h ↦
      rw (differs_sym (get_elem? ps i) (get_elem? qs i), h)
        (minus_anti (get_elem? ps i) (get_elem? qs i))
  | inr h ↦ rw (differs_sym (get_elem? ps i) (get_elem? qs i), h) (compare_at_anti is ps qs)
]

-- For any two texts, addresses or not, comparing them the other way round gives the negated result
-- (`NaN` for `NaN`).
compare_ips_anti : (a b : Text) → compare_ips a b ≡ negated (compare_ips b a)
unfolding compare_ips
compare_ips_anti a b = compare_at_anti (0 ∷ 1 ∷ 2 ∷ 3 ∷ []) (get_ip_parts a) (get_ip_parts b)

-- An address of four bytes.
pub record Address : Type 0 where
  pub b3 : ℕ
  pub b2 : ℕ
  pub b1 : ℕ
  pub b0 : ℕ

abbrev pub IsAddress : Address → Type 0
IsAddress p = (p.b3 < 256) × (p.b2 < 256) × (p.b1 < 256) × (p.b0 < 256)

abbrev pub value : Address → ℕ
value p = ((p.b3 * 256 + p.b2) * 256 + p.b1) * 256 + p.b0

abbrev dotted : Address → Text
dotted p =
    to_string p.b3 ++ b'.' ∷ (to_string p.b2 ++ b'.' ∷ (to_string p.b1 ++ b'.' ∷ to_string p.b0))

-- The address as it is written, with what follows the slash.
abbrev pub written : Address → Text → Text
written p mask = dotted p ++ b'/' ∷ mask

abbrev bytes : Address → List Number
bytes p = some (pos p.b3) ∷ some (pos p.b2) ∷ some (pos p.b1) ∷ some (pos p.b0) ∷ []

AllDigit-Lacks : (c : ℕ) (s : Text) → is_digit c ≡ false → AllDigit s → Lacks c s
AllDigit-Lacks c [] h hs = tt
AllDigit-Lacks c (d ∷ s) h (hd, hs) = (λ e. cc (ap is_digit e), AllDigit-Lacks c s h hs)

Lacks-append : (c : ℕ) (s t : Text) → Lacks c s → Lacks c t → Lacks c (s ++ t)
Lacks-append c s t hs ht = All-append _ s t hs ht

to_string-Lacks : (c n : ℕ) → is_digit c ≡ false → Lacks c (to_string n)
to_string-Lacks c n h = AllDigit-Lacks c (to_string n) h (to_string-AllDigit n)

dot_is_no_digit : is_digit b'.' ≡ false
unfolding is_digit
dot_is_no_digit = refl

slash_is_no_digit : is_digit b'/' ≡ false
unfolding is_digit
slash_is_no_digit = refl

no_slash : (n : ℕ) (s : Text) → Lacks b'/' s → Lacks b'/' (to_string n ++ b'.' ∷ s)
no_slash n s h =
    Lacks-append b'/' (to_string n) (b'.' ∷ s) (to_string-Lacks b'/' n slash_is_no_digit)
      ((λ e. omega (arith, e)), h)

dotted-Lacks : (p : Address) → Lacks b'/' (dotted p)
dotted-Lacks p =
    no_slash p.b3 _
      (no_slash p.b2 _ (no_slash p.b1 _ (to_string-Lacks b'/' p.b0 slash_is_no_digit)))

split-dotted :
    (p : Address)
    → split (dotted p) b'.' ≡ to_string p.b3 ∷ to_string p.b2 ∷ to_string p.b1 ∷ to_string p.b0 ∷ []
split-dotted p =
    rw
      (
        split-append b'.' (to_string p.b3)
            (to_string p.b2 ++ b'.' ∷ (to_string p.b1 ++ b'.' ∷ to_string p.b0))
            (to_string-Lacks b'.' p.b3 dot_is_no_digit),
        split-append b'.' (to_string p.b2) (to_string p.b1 ++ b'.' ∷ to_string p.b0)
            (to_string-Lacks b'.' p.b2 dot_is_no_digit),
        split-append b'.' (to_string p.b1) (to_string p.b0)
            (to_string-Lacks b'.' p.b1 dot_is_no_digit),
        split-Lacks b'.' (to_string p.b0) (to_string-Lacks b'.' p.b0 dot_is_no_digit),
      )
      refl

get_ip_parts-written : (p : Address) (mask : Text) → get_ip_parts (written p mask) ≡ bytes p
unfolding get_ip_parts
get_ip_parts-written p mask =
    rw
      (
        first_part-append b'/' (dotted p) mask (dotted-Lacks p),
        split-dotted p,
        parse_int-to_string p.b3,
        parse_int-to_string p.b2,
        parse_int-to_string p.b1,
        parse_int-to_string p.b0,
      )
      refl

-- The sign of a difference is the order of the numbers.
abbrev pub HasSign : ℤ → ℕ → ℕ → Type 0
HasSign r v w = (ltb 0 (neg_part r) ≡ ltb v w) × (ltb 0 (pos_part r) ≡ ltb w v)

-ℤ-HasSign : (x y : ℕ) → HasSign (pos x -ℤ pos y) x y
unfolding ◌-ℤ◌
-ℤ-HasSign x y = (ground arith, ground arith)

HasSign-order :
    (r : ℤ) (x y v w : ℕ) → HasSign r x y → ltb x y ≡ ltb v w → ltb y x ≡ ltb w v → HasSign r v w
HasSign-order r x y v w (a, b) e f = (a ∙ e, b ∙ f)

compare_bytes :
    (p q : Address)
    → IsAddress p
    → IsAddress q
    → (r : ℤ) × (compare_at (0 ∷ 1 ∷ 2 ∷ 3 ∷ []) (bytes p) (bytes q) ≡ some r)
      × HasSign r (value p) (value q)
unfolding compare_at differs minus
compare_bytes p q hp hq = elim (Bool-cases (p.b3 == q.b3)) [
  | inr h ↦ (
    pos p.b3 -ℤ pos q.b3,
    rw h refl,
    HasSign-order _ p.b3 q.b3 _ _ (-ℤ-HasSign p.b3 q.b3) (ground arith) (ground arith),
  )
  | inl h3 ↦ elim (Bool-cases (p.b2 == q.b2)) [
    | inr h ↦ (
      pos p.b2 -ℤ pos q.b2,
      rw (h3, h) refl,
      HasSign-order _ p.b2 q.b2 _ _ (-ℤ-HasSign p.b2 q.b2) (ground arith) (ground arith),
    )
    | inl h2 ↦ elim (Bool-cases (p.b1 == q.b1)) [
      | inr h ↦ (
        pos p.b1 -ℤ pos q.b1,
        rw (h3, h2, h) refl,
        HasSign-order _ p.b1 q.b1 _ _ (-ℤ-HasSign p.b1 q.b1) (ground arith) (ground arith),
      )
      | inl h1 ↦ elim (Bool-cases (p.b0 == q.b0)) [
        | inr h ↦ (
          pos p.b0 -ℤ pos q.b0,
          rw (h3, h2, h1, h) refl,
          HasSign-order _ p.b0 q.b0 _ _ (-ℤ-HasSign p.b0 q.b0) (ground arith) (ground arith),
        )
        | inl h0 ↦ (pos 0, rw (h3, h2, h1, h0) refl, (ground arith, ground arith))
      ]
    ]
  ]
]

-- Two addresses of four bytes are compared as the 32-bit numbers that they are, whatever the masks
-- are: the result is a number that is negative if the first is less, positive if it is greater,
-- and 0 if they are equal.
pub compare_ips-written :
    (p q : Address) (m n : Text)
    → IsAddress p
    → IsAddress q
    → (r : ℤ) × (compare_ips (written p m) (written q n) ≡ some r) × HasSign r (value p) (value q)
unfolding compare_ips
compare_ips-written p q m n hp hq =
    rw (get_ip_parts-written p m, get_ip_parts-written q n) (compare_bytes p q hp hq)

-- ===== src/Tables/Pages.antt =====
-- ui/src/features/shared-components/table/data-table-pagination.tsx: the pages of a table. The table
-- itself is `@tanstack/react-table`'s, of which the code relies on what `PagedTable` states.
use wgpanelne.Prelude.{
  ℕ, zero, suc, ◌-◌, ◌*◌, ◌<◌, ◌≤◌, ◌≡◌, refl, ◌↔◌, Bool, true, false, Option, none, some, List, [],
  ◌∷◌, arith, ltb, get_elem?, All,
}

pub record PagedTable (S : Type 0) : Type 0 where
  pub page_index : S → ℕ
  pub page_size : S → ℕ
  pub page_count : S → ℕ
  pub row_count : S → ℕ
  pub can_previous_page : S → Bool
  pub can_next_page : S → Bool
  pub set_page_index : ℕ → S → S
  pub set_page_size : ℕ → S → S
  pub previous_page : S → S
  pub next_page : S → S
  -- A page is one that has a row.
  pub page_count_law : (i : ℕ) (s : S) → (i < page_count s) ↔ (i * page_size s < row_count s)
  pub can_previous_law : (s : S) → can_previous_page s ≡ ltb 0 (page_index s)
  pub can_next_law : (s : S) → can_next_page s ≡ ltb (suc (page_index s)) (page_count s)
  pub set_index_law :
      (i : ℕ) (s : S)
      → (page_index (set_page_index i s) ≡ i) × (page_count (set_page_index i s) ≡ page_count s)
  pub previous_law :
      (s : S)
      → (page_index (previous_page s) ≡ page_index s - 1)
        × (page_count (previous_page s) ≡ page_count s)
  pub next_law :
      (s : S)
      → (page_index (next_page s) ≡ suc (page_index s)) × (page_count (next_page s) ≡ page_count s)
  -- The new page starts at the first row of the old one, or above it.
  pub set_size_law :
      (n : ℕ) (s : S)
      → 0 < n
      → (page_size (set_page_size n s) ≡ n)
        × (row_count (set_page_size n s) ≡ row_count s)
        × (page_index (set_page_size n s) * n ≤ page_index s * page_size s)

-- The sizes of the menu.
abbrev pub page_sizes : List ℕ
page_sizes = 10 ∷ 20 ∷ 30 ∷ 40 ∷ 50 ∷ []

sizes_pos : All (λ n. 0 < n) page_sizes
sizes_pos = (omega arith, (omega arith, (omega arith, (omega arith, (omega arith, tt)))))

-- The four buttons, and the item of the menu at a position.
pub data Click : Type 0 where
  first_page last_page previous next : Click
  rows_per_page : ℕ → Click

module _ {S : Type 0} (T : PagedTable S) where
  -- A disabled button does nothing.
  abbrev when : Bool → S → S → S
  when true s t = t
  when false s t = s

  abbrev choose_size : Option ℕ → S → S
  choose_size none s = s
  choose_size (some n) s = T.set_page_size n s

  unfoldable pub click : Click → S → S
  click first_page s = when (T.can_previous_page s) s (T.set_page_index 0 s)
  click previous s = when (T.can_previous_page s) s (T.previous_page s)
  click next s = when (T.can_next_page s) s (T.next_page s)
  click last_page s = when (T.can_next_page s) s (T.set_page_index (T.page_count s - 1) s)
  click (rows_per_page k) s = choose_size (get_elem? page_sizes k) s

  unfoldable pub clicks : List Click → S → S
  clicks [] s = s
  clicks (c ∷ cs) s = clicks cs (click c s)

  -- `Page {pageIndex + 1} of {pageCount}`, by its two numbers.
  abbrev pub page_label : S → ℕ × ℕ
  page_label s = (suc (T.page_index s), T.page_count s)

  abbrev HasPage : S → Type 0
  HasPage s = T.page_index s < T.page_count s

  when-HasPage : (b : Bool) (s t : S) → HasPage s → (b ≡ true → HasPage t) → HasPage (when b s t)
  when-HasPage true s t hs ht = ht refl
  when-HasPage false s t hs ht = hs

  choose_size-HasPage :
      (l : List ℕ) (k : ℕ) (s : S)
      → All (λ n. 0 < n) l
      → HasPage s
      → HasPage (choose_size (get_elem? l k) s)
  choose_size-HasPage [] k s _ h = h
  choose_size-HasPage (n ∷ l) (suc k) s (_, positive) h = choose_size-HasPage l k s positive h
  choose_size-HasPage (n ∷ l) zero s (pos_n, _) h =
      let t : S = T.set_page_size n s in
      let (size, rows, start) = T.set_size_law n s pos_n in
      let old : T.page_index s * T.page_size s < T.row_count s =
        (T.page_count_law (T.page_index s) s).0 h in
      let new : T.page_index t * n < T.row_count t = omega (arith, start, old, rows) in
      (T.page_count_law (T.page_index t) t).1 (rw size new)

  click-HasPage : (c : Click) (s : S) → HasPage s → HasPage (click c s)
  unfolding click
  click-HasPage first_page s h =
      let (i, n) = T.set_index_law 0 s in
      when-HasPage (T.can_previous_page s) s (T.set_page_index 0 s) h (λ _. omega (arith, i, n, h))
  click-HasPage previous s h =
      let (i, n) = T.previous_law s in
      when-HasPage (T.can_previous_page s) s (T.previous_page s) h (λ _. omega (arith, i, n, h))
  click-HasPage next s h =
      let (i, n) = T.next_law s in
      when-HasPage (T.can_next_page s) s (T.next_page s) h
        (λ e. ground (arith, i, n, h, e, T.can_next_law s))
  click-HasPage last_page s h =
      let (i, n) = T.set_index_law (T.page_count s - 1) s in
      when-HasPage (T.can_next_page s) s (T.set_page_index (T.page_count s - 1) s) h
        (λ _. omega (arith, i, n, h))
  click-HasPage (rows_per_page k) s h = choose_size-HasPage page_sizes k s sizes_pos h

  -- From a page that there is, after any clicks of the four buttons and choices of a size: the page
  -- is one that there is, so the label is `Page a of b` with `a` from 1 to `b`.
  pub clicks-page_label :
      (cs : List Click) (s : S)
      → T.page_index s < T.page_count s
      → (1 ≤ (page_label (clicks cs s)).0)
        × ((page_label (clicks cs s)).0 ≤ (page_label (clicks cs s)).1)
  unfolding clicks
  clicks-page_label [] s h = (omega arith, omega (arith, h))
  clicks-page_label (c ∷ cs) s h = clicks-page_label cs (click c s) (click-HasPage c s h)

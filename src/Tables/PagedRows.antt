-- ===== src/Tables/PagedRows.antt =====
-- A table of rows with pages of a size, which has the laws that the pagination relies on.
use wgpanelne.Prelude.{ℕ, suc, ◌+◌, ◌-◌, ◌*◌, ◌/◌, ◌<◌, ◌≤◌, refl, ◌↔◌, ltb, arith}
use native.Mathlib.Nat.{div-mul-le_self, le-div_iff_mul-le}
use wgpanelne.Tables.Pages.{PagedTable}

-- `less` is the size of a page, less one.
pub record PagedRows : Type 0 where
  pub index : ℕ
  pub less : ℕ
  pub count_rows : ℕ

-- The number of rows over the size, rounded up.
abbrev pub count_pages : ℕ → ℕ → ℕ
count_pages less rows = (rows + less) / suc less

pub count_pages_lem : (i less rows : ℕ) → (i < count_pages less rows) ↔ (i * suc less < rows)
count_pages_lem i less rows =
    let both : (suc i ≤ count_pages less rows) ↔ (suc i * suc less ≤ rows + less) =
      le-div_iff_mul-le {k = suc less} {x = suc i} {y = rows + less} (omega arith) in
    (λ h. omega (arith, both.0 h), λ h. both.1 (omega (arith, h)))

abbrev pub paged_rows : PagedTable PagedRows
paged_rows = record {
  page_index = λ s. s.index;
  page_size = λ s. suc s.less;
  page_count = λ s. count_pages s.less s.count_rows;
  row_count = λ s. s.count_rows;
  can_previous_page = λ s. ltb 0 s.index;
  can_next_page = λ s. ltb (suc s.index) (count_pages s.less s.count_rows);
  set_page_index = λ i s. record s { index = i };
  set_page_size = λ n s. record s { index = s.index * suc s.less / n; less = n - 1 };
  previous_page = λ s. record s { index = s.index - 1 };
  next_page = λ s. record s { index = suc s.index };
  page_count_law = λ i s. count_pages_lem i s.less s.count_rows;
  can_previous_law = λ s. refl;
  can_next_law = λ s. refl;
  set_index_law = λ i s. (refl, refl);
  previous_law = λ s. (refl, refl);
  next_law = λ s. (refl, refl);
  set_size_law = λ n s h. (omega (arith, h), refl, div-mul-le_self (s.index * suc s.less) n);
}

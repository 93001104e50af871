-- ===== src/Domain/Pagination.antt =====
-- domain/pagination.py, and `_paginate` of infrastructure/db/repositories.py.
pub mod Laws
use workspace.Base.{
  ℕ, ℤ, pos, pos_part, ◌+◌, ◌-◌, ◌*◌, ltb, ltb_ℤ, Bool, true, false, List, length, take, drop,
  if◌then◌else◌, Result, ok, err,
}
use workspace.Domain.Errors.{DomainError, validation_failed, Violation}

abbrev pub default_page_size : ℕ
default_page_size = 20

abbrev pub max_page_size : ℕ
max_page_size = 200

pub record PageRequest : Type 0 where
  pub page : ℕ
  pub page_size : ℕ

-- `PageRequest.__post_init__`; what passes is a natural number.
pub new_page_request : ℤ → ℤ → Result DomainError PageRequest
new_page_request page page_size =
    if ltb_ℤ page (pos 1)
    then err (validation_failed Violation.bad_page)
    else if ltb_ℤ page_size (pos 1)
    then err (validation_failed Violation.bad_page_size)
    else if ltb_ℤ (pos max_page_size) page_size
    then err (validation_failed Violation.bad_page_size)
    else ok (record { page = pos_part page; page_size = pos_part page_size })

-- `PageRequest.offset`
unfoldable pub offset : PageRequest → ℕ
offset r = (r.page - 1) * r.page_size

pub record Page {ℓ} (A : Type ℓ) : Type ℓ where
  pub items : List A
  pub page : ℕ
  pub page_size : ℕ
  pub total : ℕ

-- `Page.has_more`
unfoldable pub has_more {ℓ} : {A : Type ℓ} → Page A → Bool
has_more p = ltb (p.page * p.page_size) p.total

-- The rows of the statement, in its order, cut by OFFSET and LIMIT.
unfoldable pub paginate {ℓ} : {A : Type ℓ} → List A → PageRequest → Page A
unfolding offset
paginate rows r = record {
  items = take r.page_size (drop (offset r) rows);
  page = r.page;
  page_size = r.page_size;
  total = length rows;
}

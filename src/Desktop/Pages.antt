-- ===== src/Desktop/Pages.antt =====
-- apps/mail-client/models/mail/EmailPageProxy.cpp: the paging of a list of mails. The numbers are never
-- negative; `m_current_page < m_page_count - 1` is written without the subtraction. Signals are left out.
pub mod Bounds
use mail_server_client.Base.{
  ℕ, suc, ◌+◌, ◌-◌, ◌*◌, ◌/◌, Bool, true, false, ◌&&◌, Option, none, some, List, ◌++◌, Bytes, codes,
  to_string, ltb, leb, ◌==◌, if◌then◌else◌,
}

pub record Pages : Type 0 where
  pub current_page : ℕ
  pub page_count : ℕ
  pub emails_count : ℕ

abbrev pub new_pages : Pages
new_pages = record { current_page = 0; page_count = 0; emails_count = 0 }

abbrev pub per_page : ℕ
per_page = 8

-- PageCount, for a source model of this many rows
unfoldable pub page_count_of : ℕ → ℕ
page_count_of total = (total + per_page - 1) / per_page

unfoldable pub next_page : Pages → Pages
next_page p =
    if ltb (suc p.current_page) p.page_count
    then record p { current_page = suc p.current_page }
    else p

unfoldable pub prev_page : Pages → Pages
prev_page p = if ltb 0 p.current_page then record p { current_page = p.current_page - 1 } else p

abbrev pub clamped : ℕ → ℕ → ℕ
clamped count current =
    if count == 0 then 0 else if ltb (count - 1) current then count - 1 else current

-- RecalcValues, where there is a source model, of this many rows
unfoldable pub recalc_values : Option ℕ → Pages → Pages
unfolding page_count_of
recalc_values none p = p
recalc_values (some total) p = record {
  current_page = clamped (page_count_of total) p.current_page;
  page_count = page_count_of total;
  emails_count = total;
}

unfoldable pub filter_accepts_row : Pages → ℕ → Bool
filter_accepts_row p source_row =
    let first = p.current_page * per_page in
    let last = first + per_page - 1 in leb first source_row && leb source_row last

unfoldable pub page_amount_text : Pages → Bytes
page_amount_text p =
    if p.emails_count == 0
    then codes "0-0 of 0"
    else let start_index = p.current_page * per_page + 1 in
      let page_end = (p.current_page + 1) * per_page in
      let end_index = if ltb p.emails_count page_end then p.emails_count else page_end in
      to_string start_index
      ++ (codes "-" ++ (to_string end_index ++ (codes " of " ++ to_string p.emails_count)))

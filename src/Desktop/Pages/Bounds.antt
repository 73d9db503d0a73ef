-- ===== src/Desktop/Pages/Bounds.antt =====
-- The page that is shown exists, and each mail is on one page.
use mail_server_client.Base.{
  ℕ, suc, ◌/◌, ◌<◌, ◌≡◌, ◌↔◌, refl, true, Option, none, some, List, [], ◌∷◌, ltb, if_elim, arith,
}
use mail_server_client.Desktop.Pages.{
  Pages, new_pages, page_count_of, next_page, prev_page, clamped, recalc_values, filter_accepts_row,
}

-- The counts agree, and the current page is one of the pages, or the first where there is none.
pub record Inv (p : Pages) : Type 0 where
  pub counted : p.page_count ≡ page_count_of p.emails_count
  pub none_shown : p.page_count ≡ 0 → p.current_page ≡ 0
  pub shown : 0 < p.page_count → p.current_page < p.page_count

next_page-Inv : (p : Pages) → Inv p → Inv (next_page p)
unfolding next_page
next_page-Inv p i =
    if_elim Inv (ltb (suc p.current_page) p.page_count) _ _
      (λ e. record {
        counted = i.counted;
        none_shown = λ h. absurd (ground arith);
        shown = λ h. ground arith;
      })
      (λ e. i)

prev_page-Inv : (p : Pages) → Inv p → Inv (prev_page p)
unfolding prev_page
prev_page-Inv p i =
    if_elim Inv (ltb 0 p.current_page) _ _
      (λ e. record {
        counted = i.counted;
        none_shown = λ h. let g = i.none_shown h in omega (arith, g);
        shown = λ h. let g = i.shown h in omega (arith, g);
      })
      (λ e. i)

clamped-less : (count current : ℕ) → 0 < count → clamped count current < count
clamped-less count current h = ground arith

clamped-zero : (count current : ℕ) → count ≡ 0 → clamped count current ≡ 0
clamped-zero count current h = ground arith

recalc_values-Inv : (source : Option ℕ) (p : Pages) → Inv p → Inv (recalc_values source p)
unfolding recalc_values
recalc_values-Inv none p i = i
recalc_values-Inv (some total) p i = record {
  counted = refl;
  none_shown = λ h. clamped-zero (page_count_of total) p.current_page h;
  shown = λ h. clamped-less (page_count_of total) p.current_page h;
}

pub data Move : Type 0 where
  to_next to_previous : Move
  -- the rows of the source model have changed
  to_rows : Option ℕ → Move

unfoldable pub move : Move → Pages → Pages
unfolding next_page prev_page recalc_values
move to_next p = next_page p
move to_previous p = prev_page p
move (to_rows source) p = recalc_values source p

unfoldable pub moves : List Move → Pages → Pages
unfolding move
moves [] p = p
moves (m ∷ ms) p = moves ms (move m p)

move-Inv : (m : Move) (p : Pages) → Inv p → Inv (move m p)
unfolding move
move-Inv to_next p i = next_page-Inv p i
move-Inv to_previous p i = prev_page-Inv p i
move-Inv (to_rows source) p i = recalc_values-Inv source p i

moves_from : (ms : List Move) (p : Pages) → Inv p → Inv (moves ms p)
unfolding moves
moves_from [] p i = i
moves_from (m ∷ ms) p i = moves_from ms (move m p) (move-Inv m p i)

new_pages-Inv : Inv new_pages
unfolding page_count_of
new_pages-Inv = record {
  counted = refl;
  none_shown = λ h. refl;
  shown = λ h. absurd (omega (arith, h));
}

-- After any turns of pages and any changes of the mails, the number of pages is the one for the number
-- of mails, and the current page is one of them, or the first where there is none.
pub moves-Inv : (ms : List Move) → Inv (moves ms new_pages)
moves-Inv ms = moves_from ms new_pages new_pages-Inv

accepts_row_iff :
    (p : Pages) (row : ℕ) → (filter_accepts_row p row ≡ true) ↔ (p.current_page ≡ row / 8)
unfolding filter_accepts_row
accepts_row_iff p row = (λ h. ground arith, λ h. ground arith)

-- After any turns of pages and any changes of the mails, each mail of the list is on a page that exists,
-- and it is shown exactly when that page is the current one.
pub moves-row :
    (ms : List Move) (row : ℕ)
    → row < (moves ms new_pages).emails_count
    → (row / 8 < (moves ms new_pages).page_count)
      × ((filter_accepts_row (moves ms new_pages) row ≡ true)
          ↔ ((moves ms new_pages).current_page ≡ row / 8))
unfolding page_count_of
moves-row ms row h =
    let c = (moves-Inv ms).counted in
    (omega (arith, c, h), accepts_row_iff (moves ms new_pages) row)

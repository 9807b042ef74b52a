-- ===== src/Virtual/Tests.antt =====
-- document/virtual/window.go: four pages, and the theorems applied to them.
use docengine.Prelude.{refl, true, false, List, [], ◌∷◌, none, some, arith}
use docengine.Virtual.Window.{
  Budget, PageMeta, PagerState, Chosen, choose_pages, take_anchor, extend_before, extend_after,
  fits_page, add_page_usage, has_fragment, measure_of,
}
use docengine.Virtual.Requests.{page_at_byte}
use docengine.Virtual.Choice.{IsChosen, choose_pages_lem}
use docengine.Virtual.Pages.{HasByte, page_at_byte_lem}

abbrev four_pages : List PageMeta
four_pages =
    record { start = 0; end = 10; fragment = none }
    ∷ record { start = 10; end = 30; fragment = some 0 }
    ∷ record { start = 30; end = 45; fragment = some 0 }
    ∷ record { start = 45; end = 50; fragment = none }
    ∷ []

abbrev small_state : PagerState
small_state = record {
  generation = 1;
  pages = four_pages;
  fragments = record { id = 1; measure = 7; measure_start = 0; page_first = 1; page_last = 2 } ∷ [];
  total_measure = 7;
}

abbrev small_budget : Budget
small_budget = record { bytes = 42; pages = 3; fragments = 1; measure = 9 }

-- Page 0 does not fit any more.
abbrev three_pages : Chosen
three_pages = record {
  first = 1;
  last = 3;
  used = record { bytes = 40; pages = 3; fragments = 0 ∷ []; measure = 7 };
  truncated_before = true;
  truncated_after = false;
}

choose_pages_lem_example : IsChosen small_state 2 2 0 3 small_budget three_pages
unfolding choose_pages take_anchor extend_before extend_after fits_page add_page_usage has_fragment
    measure_of
choose_pages_lem_example = choose_pages_lem small_state 2 2 0 3 small_budget three_pages refl

page_at_byte_lem_example : HasByte four_pages (page_at_byte four_pages 31 50) 31
page_at_byte_lem_example =
    page_at_byte_lem four_pages 31 50
      (refl, omega arith, (refl, omega arith, (refl, omega arith, (refl, omega arith, refl))))
      (omega arith)

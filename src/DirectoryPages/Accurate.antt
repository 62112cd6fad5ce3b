-- ===== src/DirectoryPages/Accurate.antt =====
-- Whatever is opened, refreshed, answered and invalidated, what is shown is what the loaded directories list.
use gitna.Prelude.{inr, inl, Bool-cases, Option, List, Text}
use gitna.Directories.{DirectoryEntries, is_unloaded, Directories}
use gitna.Directories.Publishing.{rebuild_paths-IsAccurate, IsAccurate}
use gitna.DirectoryPages.Preserving.{IsKept, pages_run-keeps}
use gitna.DirectoryPages.{
  store_page, is_current_page, Option, PageRead, adopt_page, fail_page, fetch_page, finish_page,
  invalidate_directories,
}
use gitna.DirectoryPages.Runs.{PagesEvent, PagesWorld, pages_run}

-- A step that leaves the tree and the paths alone.
fetch-IsAccurate :
    (s : Directories) (key : Text) (cursor : Option Text)
    → IsAccurate s
    → IsAccurate (fetch_page s key cursor).0
unfolding fetch_page is_unloaded
fetch-IsAccurate s key cursor a = record {
  paths_listed = a.paths_listed;
  unloaded_listed = a.unloaded_listed;
  ignored_listed = a.ignored_listed;
  empty_listed = a.empty_listed;
  all_anchored = a.all_anchored;
}

fail-IsAccurate :
    (s : Directories) (r : PageRead) (message : Text)
    → IsAccurate s
    → IsAccurate (fail_page s r message)
unfolding fail_page is_unloaded
fail-IsAccurate s r message a = record {
  paths_listed = a.paths_listed;
  unloaded_listed = a.unloaded_listed;
  ignored_listed = a.ignored_listed;
  empty_listed = a.empty_listed;
  all_anchored = a.all_anchored;
}

finish-IsAccurate : (s : Directories) (r : PageRead) → IsAccurate s → IsAccurate (finish_page s r)
unfolding finish_page is_unloaded
finish-IsAccurate s r a = elim (Bool-cases (is_current_page s r)) [
  | inl current ↦ rw current (record {
    paths_listed = a.paths_listed;
    unloaded_listed = a.unloaded_listed;
    ignored_listed = a.ignored_listed;
    empty_listed = a.empty_listed;
    all_anchored = a.all_anchored;
  })
  | inr late ↦ rw late a
]

invalidate-IsAccurate : (s : Directories) → IsAccurate s → IsAccurate (invalidate_directories s)
unfolding invalidate_directories is_unloaded
invalidate-IsAccurate s a = record {
  paths_listed = a.paths_listed;
  unloaded_listed = a.unloaded_listed;
  ignored_listed = a.ignored_listed;
  empty_listed = a.empty_listed;
  all_anchored = a.all_anchored;
}

adopt-IsAccurate :
    (s : Directories) (r : PageRead) (page : DirectoryEntries) → IsAccurate (adopt_page s r page)
unfolding adopt_page is_unloaded
adopt-IsAccurate s r page =
    let a = rebuild_paths-IsAccurate (store_page s r page) in
    record {
      paths_listed = a.paths_listed;
      unloaded_listed = a.unloaded_listed;
      ignored_listed = a.ignored_listed;
      empty_listed = a.empty_listed;
      all_anchored = a.all_anchored;
    }

IsAccurate-IsKept : IsKept IsAccurate
IsAccurate-IsKept = record {
  on_fetch = fetch-IsAccurate;
  on_adopt = λ s r page fresh a. adopt-IsAccurate s r page;
  on_fail = fail-IsAccurate;
  on_finish = finish-IsAccurate;
  on_invalidate = invalidate-IsAccurate;
}

-- Whatever is opened, refreshed, answered and invalidated in whatever order, starting where it is so: the
-- paths that are shown are those that the loaded directories list, the directories to open are those among
-- them that are neither loaded nor known to be empty, only listed paths are marked as ignored or empty,
-- and every loaded directory is reached from the root.
pub pages_run-IsAccurate :
    (w : PagesWorld) (events : List PagesEvent)
    → IsAccurate w.state
    → IsAccurate (pages_run w events).state
pages_run-IsAccurate w events a = pages_run-keeps IsAccurate IsAccurate-IsKept w events a

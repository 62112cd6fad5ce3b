-- ===== src/DirectoryPages/Preserving.antt =====
-- What every event of the directories keeps, a claim on their state gains by induction on the events.
use gitna.History.{arrived, failed, Answer, Answer}
use gitna.Prelude.{
  arith, inr, ltb, inl, ltb, ◌≤◌, Bool-cases, if◌then◌else◌, map_get, map_get, none, Option, Bool,
  ℕ, List, Text, true, false, [], ◌∷◌, some,
}
use gitna.Directories.{DirectoryEntries, directory_key, Directories}
use gitna.DirectoryPages.{
  invalidate_directories, has_changed, finish_page, fail_page, adopt_page, is_superseded, ◌∷◌, Load,
  some, PageRead, none, fetch_page, settle_page, refresh_directory, Bool, load_directory,
  resume_refresh, join_or_fetch, answer_page, load_rest, load_key, Option, load_more_directory,
}
use gitna.DirectoryPages.Runs.{
  take_page, answers_page, opens_more, resumes_refresh, refreshes_directory, opens_directory,
  with_load, PagesEvent, PagesWorld, with_answer, pages_step, pages_run, invalidates_directories,
}

-- The steps of the state: a page begins, is adopted, fails, ends, or all are invalidated.
pub record IsKept (P : Directories → Type 0) : Type 0 where
  pub on_fetch :
      (s : Directories) (key : Text) (cursor : Option Text) → P s → P (fetch_page s key cursor).0
  pub on_adopt :
      (s : Directories) (r : PageRead) (page : DirectoryEntries)
      → s.repository_files_generation ≤ page.generation
      → P s
      → P (adopt_page s r page)
  pub on_fail : (s : Directories) (r : PageRead) (message : Text) → P s → P (fail_page s r message)
  pub on_finish : (s : Directories) (r : PageRead) → P s → P (finish_page s r)
  pub on_invalidate : (s : Directories) → P s → P (invalidate_directories s)

module _ (P : Directories → Type 0) (kept : IsKept P) where
  join_or_fetch-keeps :
      (s : Directories) (key : Text) (cursor : Option Text) (existing : Option ℕ)
      → P s
      → P (join_or_fetch s key cursor existing).0
  unfolding join_or_fetch
  join_or_fetch-keeps s key cursor none p = kept.on_fetch s key cursor p
  join_or_fetch-keeps s key cursor (some n) p = p

  load_key-keeps :
      (s : Directories) (key : Text) (loaded : Option (List Text))
      → P s
      → P (load_key s key loaded).0
  unfolding load_key
  load_key-keeps s key none p = join_or_fetch-keeps s key none (map_get key s.directory_requests) p
  load_key-keeps s key (some paths) p = p

  load_rest-keeps :
      (s : Directories) (key : Text) (cursor : Option Text) → P s → P (load_rest s key cursor).0
  unfolding load_rest
  load_rest-keeps s key none p = p
  load_rest-keeps s key (some cursor) p =
      join_or_fetch-keeps s key (some cursor) (map_get key s.directory_requests) p

  if-keeps : (t : Bool) (x y : Directories × Load) → P x.0 → P y.0 → P (if t then x else y).0
  if-keeps true x y p q = p
  if-keeps false x y p q = q

  load_directory-keeps :
      (s : Directories) (directory : Text) (epoch : ℕ)
      → P s
      → P (load_directory s directory epoch).0
  unfolding load_directory
  load_directory-keeps s directory epoch p =
      if-keeps _ _ _ p (load_key-keeps s (directory_key directory) _ p)

  refresh_directory-keeps :
      (s : Directories) (directory : Text) (epoch : ℕ)
      → P s
      → P (refresh_directory s directory epoch).0
  unfolding refresh_directory
  refresh_directory-keeps s directory epoch p =
      if-keeps _ _ _ p (join_or_fetch-keeps s (directory_key directory) none _ p)

  resume_refresh-keeps :
      (s : Directories) (key : Text) (epoch : ℕ) → P s → P (resume_refresh s key epoch).0
  unfolding resume_refresh
  resume_refresh-keeps s key epoch p = if-keeps _ _ _ p (join_or_fetch-keeps s key none _ p)

  load_more_directory-keeps :
      (s : Directories) (directory : Text) → P s → P (load_more_directory s directory).0
  unfolding load_more_directory
  load_more_directory-keeps s directory p = load_rest-keeps s (directory_key directory) _ p

  answer_page-keeps :
      (s : Directories) (r : PageRead) (answer : Answer DirectoryEntries)
      → P s
      → P (answer_page s r answer).0
  unfolding answer_page
  answer_page-keeps s r (failed status message) p = kept.on_fail s r message p
  answer_page-keeps s r (arrived page) p =
      elim (Bool-cases (ltb page.generation s.repository_files_generation)) [
        | inl stale ↦ rw stale p
        | inr fresh ↦ elim (Bool-cases (has_changed s r page)) [
          | inl changed ↦ rw fresh (rw changed (kept.on_fail s r _ p))
          | inr same ↦ rw fresh (rw same (kept.on_adopt s r page (ground arith) p))
        ]
      ]

  settle_page-keeps :
      (s : Directories) (r : PageRead) (answer : Answer DirectoryEntries)
      → P s
      → P (settle_page s r answer).0
  unfolding settle_page
  settle_page-keeps s r answer p = elim (Bool-cases (is_superseded s r)) [
    | inl late ↦ rw late (kept.on_finish s r p)
    | inr current ↦ rw current (kept.on_finish _ r (answer_page-keeps s r answer p))
  ]

  with_answer-keeps :
      (w : PagesWorld) (answer : Answer DirectoryEntries) (taken : Option PageRead × List PageRead)
      → P w.state
      → P (with_answer w answer taken).state
  unfolding with_answer
  with_answer-keeps w answer (none, rest) p = p
  with_answer-keeps w answer (some r, rest) p = settle_page-keeps w.state r answer p

  pages_step-keeps : (w : PagesWorld) (e : PagesEvent) → P w.state → P (pages_step w e).state
  unfolding pages_step with_load
  pages_step-keeps w (opens_directory directory epoch) p =
      load_directory-keeps w.state directory epoch p
  pages_step-keeps w (refreshes_directory directory epoch) p =
      refresh_directory-keeps w.state directory epoch p
  pages_step-keeps w (resumes_refresh key epoch) p = resume_refresh-keeps w.state key epoch p
  pages_step-keeps w (opens_more directory) p = load_more_directory-keeps w.state directory p
  pages_step-keeps w (answers_page i answer) p = with_answer-keeps w answer (take_page i w.reads) p
  pages_step-keeps w invalidates_directories p = kept.on_invalidate w.state p

  pub pages_run-keeps :
      (w : PagesWorld) (events : List PagesEvent) → P w.state → P (pages_run w events).state
  unfolding pages_run
  pages_run-keeps w [] p = p
  pages_run-keeps w (e ∷ events) p =
      pages_run-keeps (pages_step w e) events (pages_step-keeps w e p)

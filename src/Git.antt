-- ===== src/Git.antt =====
-- web/src/diffshub/gitna/repository.tsx, what is known of the git repository: the types of
-- web/src/lib/types.ts, and the state that is dropped when the folder is no repository (invalidateGitLoading,
-- clearGitState).
use gitna.Prelude.{ℕ, ◌+◌, Bool, false, Option, none, List, [], Text, JsMap}
use gitna.History.{abort, History, CommitFile}
use gitna.Tabs.{FileChange, Selection, CompareTarget, CompareDiffTarget}

pub record ConflictEntry : Type 0 where
  pub path : Text
  pub base_oid : Text
  pub ours_oid : Text
  pub theirs_oid : Text
  pub mode : Option Text
  pub can_resolve_both : Option Bool

pub record RepoSnapshot : Type 0 where
  pub app_version : Text
  pub repository : Bool
  pub root : Text
  pub head_oid : Option Text
  pub head_branch : Option Text
  pub upstream : Option Text
  pub ahead : ℕ
  pub behind : ℕ
  pub operation : Text
  pub staged_changes : List FileChange
  pub unstaged_changes : List FileChange
  pub conflicts : Option (List ConflictEntry)
  pub generation : ℕ

pub record Branch : Type 0 where
  pub name : Text
  pub oid : Text
  pub current : Bool
  pub remote : Bool
  pub upstream : Option Text
  pub ahead : ℕ
  pub behind : ℕ

pub record StashEntry : Type 0 where
  pub ref : Text
  pub oid : Text
  pub message : Text
  pub branch : Text

pub record Tag : Type 0 where
  pub name : Text
  pub oid : Text
  pub annotated : Bool

-- What is known of the git repository, apart from its snapshot.
pub record GitState : Type 0 where
  pub history : History
  pub graph_reveal : Option Text
  pub files_loading : JsMap Bool
  pub files_error : JsMap Text
  pub git_detail_epoch : ℕ
  pub branches : List Branch
  pub remotes : List Text
  pub branches_loading : Bool
  pub branches_error : Option Text
  pub branches_request : ℕ
  pub stashes : List StashEntry
  pub stashes_loading : Bool
  pub stashes_error : Option Text
  pub stashes_request : ℕ
  pub tags : List Tag
  pub tags_loading : Bool
  pub tags_error : Option Text
  pub tags_request : ℕ
  pub compare_target : Option CompareTarget
  pub compare_files : List CommitFile
  pub compare_diff : Option CompareDiffTarget
  pub compare_loading : Bool
  pub compare_error : Option Text
  pub compare_request : ℕ
  pub conflicts : List ConflictEntry
  pub conflicts_loading : Bool
  pub conflicts_error : Option Text
  pub conflicts_request : ℕ
  pub selection : Option Selection
  pub repository_file_total : Option ℕ
  pub repository_file_total_generation : ℕ
  pub repository_file_count_loading : Bool
  pub repository_file_count_request : ℕ

unfoldable pub invalidate_git_loading : GitState → GitState
invalidate_git_loading g = record g {
  git_detail_epoch = g.git_detail_epoch + 1;
  compare_request = g.compare_request + 1;
  conflicts_request = g.conflicts_request + 1;
  files_loading = [];
  files_error = [];
  history = record g.history {
    graph_loading = false;
    graph_count_loading = false;
    graph_error = none;
  };
  branches_loading = false;
  stashes_loading = false;
  tags_loading = false;
  compare_loading = false;
  conflicts_loading = false;
  branches_error = none;
  stashes_error = none;
  tags_error = none;
  compare_error = none;
  conflicts_error = none;
}

-- The part of `clearGitState` that is about the commit graph; its requests become stale.
unfoldable pub clear_history : History → History
clear_history h = record h {
  graph_commits = [];
  graph_rows = [];
  graph_has_more = false;
  graph_tip = [];
  graph_generation = 0;
  graph_total = none;
  graph_error = none;
  graph_request = h.graph_request + 1;
  graph_count_request = h.graph_count_request + 1;
  graph_count_cache = [];
  aborted = abort h.graph_controller h.aborted;
  aborted_counts = abort h.graph_count_controller h.aborted_counts;
  expanded = [];
  commit_files = [];
  commit_stats = [];
  commit_diff = none;
}

unfoldable pub clear_git_state : GitState → GitState
clear_git_state g =
    let cleared = invalidate_git_loading g in
    record cleared {
      history = clear_history cleared.history;
      repository_file_count_request = g.repository_file_count_request + 1;
      repository_file_count_loading = false;
      repository_file_total = none;
      repository_file_total_generation = 0;
      compare_target = none;
      compare_files = [];
      compare_diff = none;
      selection = none;
      branches_request = g.branches_request + 1;
      stashes_request = g.stashes_request + 1;
      tags_request = g.tags_request + 1;
      graph_reveal = none;
      branches = [];
      remotes = [];
      branches_error = none;
      stashes = [];
      stashes_error = none;
      tags = [];
      tags_error = none;
      conflicts = [];
      conflicts_error = none;
    }

-- ===== src/Raft/Log.antt =====
-- The reads of the log in src/peer/consensus/raft/replication.rs, as functions of the log.
pub mod Numbered
use rustchain.Base.{
  ℕ, zero, suc, ◌+◌, Bool, true, false, ◌&&◌, Option, none, some, List, [], ◌∷◌, if◌then◌else◌,
  ◌==◌, nat_eq, add_u64, last_or, find, keep, max,
}
use rustchain.Data.{RaftLogEntry}

unfoldable pub last_log_index : List RaftLogEntry → ℕ
last_log_index log = last_or (λ e. e.index) 0 log

unfoldable pub last_log_term : List RaftLogEntry → ℕ
last_log_term log = last_or (λ e. e.term) 0 log

unfoldable pub log_entry : List RaftLogEntry → ℕ → Option RaftLogEntry
unfolding find
log_entry log index = find (λ e. e.index == index) log

unfoldable pub term_at : List RaftLogEntry → ℕ → Option ℕ
unfolding log_entry
term_at log index =
    if index == 0
    then some 0
    else (elim (log_entry log index) [ none ↦ none | some e ↦ some e.term ])

-- `self.term_at(index) == Some(term)`
unfoldable pub has_term : List RaftLogEntry → ℕ → ℕ → Bool
unfolding term_at
has_term log index term = elim (term_at log index) [ none ↦ false | some t ↦ t == term ]

-- `offset` counts the entries before.
unfoldable pub contiguous_from : ℕ → ℕ → List RaftLogEntry → Bool
contiguous_from prev_log_index offset [] = true
contiguous_from prev_log_index offset (e ∷ es) =
    e.index == add_u64 (add_u64 prev_log_index offset) 1
    && contiguous_from prev_log_index (suc offset) es

unfoldable pub entries_are_contiguous_after : ℕ → List RaftLogEntry → Bool
unfolding contiguous_from
entries_are_contiguous_after prev_log_index entries = contiguous_from prev_log_index 0 entries

-- `iter().max()`
unfoldable pub max_index : List RaftLogEntry → Option ℕ
max_index [] = none
max_index (e ∷ es) = elim (max_index es) [ none ↦ some e.index | some m ↦ some (max e.index m) ]

unfoldable pub matching_index_for : List RaftLogEntry → ℕ → ℕ → List RaftLogEntry → ℕ
unfolding has_term max_index keep
matching_index_for log prev_log_index prev_log_term entries =
    let previous_match = if has_term log prev_log_index prev_log_term then prev_log_index else 0 in
    elim (max_index (keep (λ e. has_term log e.index e.term) entries)) [
      | none ↦ previous_match
      | some m ↦ m
    ]

-- ===== src/Agent/Git.antt =====
-- agent/internal/git/service.go. `run_git` is what the git command prints in a directory, or an error.
pub mod Dispatch
pub mod Parsing
use pocketclaude.Base.{
  ℕ, zero, suc, GoString, text, str_eq, Bool, true, false, not, ◌&&◌, ◌||◌, Option, none, some,
  List, [], ◌∷◌, ◌++◌, if◌then◌else◌, ◌==◌, leb, length,
}

-- Of strings.TrimSpace: unicode.IsSpace of the characters of one, two and three bytes.
abbrev pub space1 : ℕ → Bool
space1 a = (leb 9 a && leb a 13) || a == 32

abbrev pub space2 : ℕ → ℕ → Bool
space2 a b = a == 194 && (b == 133 || b == 160)

abbrev pub space3 : ℕ → ℕ → ℕ → Bool
space3 a b c =
    (a == 225 && b == 154 && c == 128)
    || (a == 226 && b == 128 && (leb 128 c && leb c 138 || c == 168 || c == 169 || c == 175))
    || (a == 226 && b == 129 && c == 159)
    || (a == 227 && b == 128 && c == 128)

unfoldable pub trim_left : GoString → GoString
trim_left [] = []
trim_left (a ∷ []) = if space1 a then [] else a ∷ []
trim_left (a ∷ b ∷ []) =
    let rest = trim_left (b ∷ []) in
    if space1 a then rest else if space2 a b then [] else a ∷ b ∷ []
trim_left (a ∷ b ∷ c ∷ s) =
    let rest1 = trim_left (b ∷ c ∷ s) in
    let rest2 = trim_left (c ∷ s) in
    let rest3 = trim_left s in
    if space1 a
    then rest1
    else if space2 a b
    then rest2
    else if space3 a b c
    then rest3
    else a ∷ b ∷ c ∷ s

unfoldable pub trim_right : GoString → GoString
unfolding trim_left
trim_right [] = []
trim_right (a ∷ s) =
    let rest = trim_right s in if str_eq (trim_left (a ∷ s)) [] then [] else a ∷ rest

abbrev pub trim_space : GoString → GoString
trim_space s = trim_right (trim_left s)

abbrev pub cons_head : ℕ → List GoString → List GoString
cons_head x [] = (x ∷ []) ∷ []
cons_head x (part ∷ parts) = (x ∷ part) ∷ parts

-- strings.Split at a separator of one byte.
unfoldable pub split : ℕ → GoString → List GoString
split sep [] = [] ∷ []
split sep (x ∷ s) = let rest = split sep s in if x == sep then [] ∷ rest else cons_head x rest

-- strings.SplitN at a separator of one byte, into n parts at most.
unfoldable pub split_n : ℕ → ℕ → GoString → List GoString
split_n sep zero s = []
split_n sep (suc zero) s = s ∷ []
split_n sep (suc (suc n)) [] = [] ∷ []
split_n sep (suc (suc n)) (x ∷ s) =
    let next = split_n sep (suc n) s in
    let rest = split_n sep (suc (suc n)) s in if x == sep then [] ∷ next else cons_head x rest

pub record StatusResult : Type 0 where
  pub dir : GoString
  pub branch : GoString
  pub files : List GoString
  pub clean : Bool
  pub raw : GoString

pub record DiffResult : Type 0 where
  pub dir : GoString
  pub diff : GoString
  pub has_changes : Bool

pub record LogEntry : Type 0 where
  pub hash : GoString
  pub message : GoString
  pub author : GoString
  pub date : GoString

pub record LogResult : Type 0 where
  pub dir : GoString
  pub entries : List LogEntry
  pub count : ℕ

-- The byte of `\n`, and of `|`.
abbrev pub newline : ℕ
newline = 10

abbrev pub bar : ℕ
bar = 124

unfoldable pub status_files : GoString → List GoString
unfolding split trim_right
status_files raw = if str_eq raw [] then [] else split newline (trim_space raw)

unfoldable pub entry_of : List GoString → Option LogEntry
entry_of [] = none
entry_of (hash ∷ []) = none
entry_of (hash ∷ message ∷ []) =
    some (record { hash = hash; message = message; author = []; date = [] })
entry_of (hash ∷ message ∷ author ∷ []) =
    some (record { hash = hash; message = message; author = []; date = [] })
entry_of (hash ∷ message ∷ author ∷ date ∷ more) =
    some (record { hash = hash; message = message; author = author; date = date })

-- The loop over the lines.
unfoldable pub entries_of : List GoString → List LogEntry
unfolding entry_of split_n
entries_of [] = []
entries_of (line ∷ lines) = elim (entry_of (split_n bar 4 line)) [
  | none ↦ entries_of lines
  | some entry ↦ entry ∷ entries_of lines
]

unfoldable pub log_entries : GoString → List LogEntry
unfolding entries_of split trim_right
log_entries raw = if str_eq raw [] then [] else entries_of (split newline (trim_space raw))

abbrev pub log_args : List GoString
log_args = text "log" ∷ text "--pretty=format:%h|%s|%an|%ar" ∷ text "-20" ∷ []

module _ (run_git : GoString → List GoString → Option GoString) where
  unfoldable pub status : GoString → Option StatusResult
  unfolding status_files trim_right
  status dir = elim (run_git dir (text "status" ∷ text "--porcelain" ∷ [])) [
    | none ↦ none
    | some raw ↦
        (let branch : GoString =
            elim (run_git dir (text "rev-parse" ∷ text "--abbrev-ref" ∷ text "HEAD" ∷ [])) [
              | none ↦ text "unknown"
              | some b ↦ b
            ] in
          some (record {
            dir = dir;
            branch = trim_space branch;
            files = status_files raw;
            clean = length (status_files raw) == 0;
            raw = raw;
          }))
  ]

  abbrev pub diff_of : GoString → Option GoString → Option DiffResult
  diff_of dir none = none
  diff_of dir (some raw) =
      some (record { dir = dir; diff = raw; has_changes = not (str_eq raw []) })

  abbrev pub diff : GoString → Option DiffResult
  diff dir = diff_of dir (run_git dir (text "diff" ∷ []))

  abbrev pub diff_cached : GoString → Option DiffResult
  diff_cached dir = diff_of dir (run_git dir (text "diff" ∷ text "--cached" ∷ []))

  unfoldable pub log : GoString → Option LogResult
  unfolding log_entries
  log dir = elim (run_git dir log_args) [
    | none ↦ none
    | some raw ↦
        some (record { dir = dir; entries = log_entries raw; count = length (log_entries raw) })
  ]

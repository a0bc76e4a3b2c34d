-- ===== src/Agent/Git/Parsing.antt =====
-- What the parsers of git's output recover of what git printed.
use pocketclaude.Base.{
  ℕ, suc, GoString, str_eq, ◌≡◌, ◌≢◌, refl, ap, ◌∙◌, true, false, Option, some, List, [], ◌∷◌, ◌++◌,
  append_assoc, ◌==◌, length, All,
}
use pocketclaude.Agent.Git.{
  LogEntry, newline, bar, trim_left, trim_space, split, split_n, entry_of, entries_of, log_entries,
  log, log_args, status_files,
}

-- The byte does not stand in the string.
abbrev pub Free : ℕ → GoString → Type 0
Free sep = All (λ x. (x == sep) ≡ false)

Free-append : (sep : ℕ) (p q : GoString) → Free sep p → Free sep q → Free sep (p ++ q)
Free-append sep [] q hp hq = hq
Free-append sep (x ∷ p) q hp hq = (hp.0, Free-append sep p q hp.1 hq)

pub split-append :
    (sep : ℕ) (p s : GoString)
    → Free sep p
    → (sep == sep) ≡ true
    → split sep (p ++ sep ∷ s) ≡ p ∷ split sep s
unfolding split
split-append sep [] s h same = rw (same) refl
split-append sep (x ∷ p) s h same = rw (h.0, split-append sep p s h.1 same) refl

pub split-Free : (sep : ℕ) (p : GoString) → Free sep p → split sep p ≡ p ∷ []
unfolding split
split-Free sep [] h = refl
split-Free sep (x ∷ p) h = rw (h.0, split-Free sep p h.1) refl

split_n-append :
    (sep n : ℕ) (p s : GoString)
    → Free sep p
    → (sep == sep) ≡ true
    → split_n sep (suc (suc n)) (p ++ sep ∷ s) ≡ p ∷ split_n sep (suc n) s
unfolding split_n
split_n-append sep n [] s h same = rw (same) refl
split_n-append sep n (x ∷ p) s h same = rw (h.0, split_n-append sep n p s h.1 same) refl

-- A line of `--pretty=format:%h|%s|%an|%ar`.
abbrev pub line_of : LogEntry → GoString
line_of e = e.hash ++ bar ∷ (e.message ++ bar ∷ (e.author ++ bar ∷ e.date))

-- The lines of a log, with a newline between two.
unfoldable pub lines_of : LogEntry → List LogEntry → GoString
lines_of e [] = line_of e
lines_of e (f ∷ es) = line_of e ++ newline ∷ lines_of f es

-- No field spans two lines, and none but the date has a bar.
abbrev pub IsPlain : LogEntry → Type 0
IsPlain e = (Free bar e.hash × Free bar e.message × Free bar e.author) × Free newline (line_of e)

entry_of-line_of :
    (e : LogEntry)
    → Free bar e.hash
    → Free bar e.message
    → Free bar e.author
    → entry_of (split_n bar 4 (line_of e)) ≡ some e
unfolding entry_of
entry_of-line_of e h m a =
    rw
      (
        split_n-append bar 2 e.hash _ h refl,
        split_n-append bar 1 e.message _ m refl,
        split_n-append bar 0 e.author _ a refl,
      )
      (unfold split_n in refl)

entries_of-cons :
    (line : GoString) (lines : List GoString) (e : LogEntry)
    → entry_of (split_n bar 4 line) ≡ some e
    → entries_of (line ∷ lines) ≡ e ∷ entries_of lines
unfolding entries_of
entries_of-cons line lines e h = rw (h, entries_of) refl

entries_of-lines_of :
    (e : LogEntry) (es : List LogEntry)
    → All IsPlain (e ∷ es)
    → entries_of (split newline (lines_of e es)) ≡ e ∷ es
unfolding lines_of
entries_of-lines_of e [] h = rw (split-Free newline (line_of e) h.0.1) (
    entries_of-cons (line_of e) [] e (entry_of-line_of e h.0.0.0 h.0.0.1 h.0.0.2)
    ∙ unfold entries_of in refl)
entries_of-lines_of e (f ∷ es) h =
    rw (split-append newline (line_of e) (lines_of f es) h.0.1 refl) (
      entries_of-cons (line_of e) _ e (entry_of-line_of e h.0.0.0 h.0.0.1 h.0.0.2)
      ∙ ap (λ l. e ∷ l) (entries_of-lines_of f es h.1))

log_entries-split :
    (raw : GoString) → raw ≢ [] → log_entries raw ≡ entries_of (split newline (trim_space raw))
unfolding log_entries str_eq
log_entries-split [] ne = absurd (ne refl)
log_entries-split (x ∷ raw) ne = refl

append-not_empty : (p s : GoString) (x : ℕ) → p ++ x ∷ s ≢ []
append-not_empty [] s x e = cc
append-not_empty (y ∷ p) s x e = cc

lines_of-not_empty : (e : LogEntry) (es : List LogEntry) → lines_of e es ≢ []
unfolding lines_of
lines_of-not_empty e [] = append-not_empty e.hash _ bar
lines_of-not_empty e (f ∷ es) = append-not_empty (line_of e) (lines_of f es) newline

-- Git prints the entries of a log, at least one, a line for each. No field has a newline, none but
-- the date has a bar, and the output neither begins nor ends with white space. Then Log returns these
-- entries in their order, with their number.
pub log-lines_of :
    (run_git : GoString → List GoString → Option GoString) (dir : GoString) (e : LogEntry)
    (es : List LogEntry)
    → run_git dir log_args ≡ some (lines_of e es)
    → All IsPlain (e ∷ es)
    → trim_space (lines_of e es) ≡ lines_of e es
    → log run_git dir ≡ some (record { dir = dir; entries = e ∷ es; count = length (e ∷ es) })
unfolding log
log-lines_of run_git dir e es prints plain trimmed = rw (prints, log, entries) refl
  where
    entries : log_entries (lines_of e es) ≡ e ∷ es
    entries =
        log_entries-split (lines_of e es) (lines_of-not_empty e es)
        ∙ ap (λ s. entries_of (split newline s)) trimmed
        ∙ entries_of-lines_of e es plain

-- Neither the hash nor the two parts of the subject beside a bar has a bar. The subject is cut at its
-- bar: its rest is taken for the author, and the author with the date for the date.
pub entry_of-piped :
    (hash subject rest author date : GoString)
    → Free bar hash
    → Free bar subject
    → Free bar rest
    → entry_of (
        split_n bar 4 (
          line_of (record {
            hash = hash;
            message = subject ++ bar ∷ rest;
            author = author;
            date = date;
          })))
      ≡ some (record { hash = hash; message = subject; author = rest; date = author ++ bar ∷ date })
unfolding entry_of
entry_of-piped hash subject rest author date h s r =
    rw
      (
        append_assoc subject (bar ∷ rest) (bar ∷ (author ++ bar ∷ date)),
        split_n-append bar 2 hash _ h refl,
        split_n-append bar 1 subject _ s refl,
        split_n-append bar 0 rest _ r refl,
      )
      (unfold split_n in refl)

-- A status that begins with a space, which says of its first file that the change is not staged, is
-- parsed as if it did not begin with it.
pub status_files-space : (c : ℕ) (s : GoString) → status_files (32 ∷ c ∷ s) ≡ status_files (c ∷ s)
unfolding status_files trim_left str_eq
status_files-space c [] = refl
status_files-space c (d ∷ s) = refl

-- ===== src/Agent/GitExamples.antt =====
-- The parsers of git's output at concrete inputs.
use pocketclaude.Base.{GoString, text, str_eq, ◌≡◌, refl, Option, some, List, [], ◌∷◌, length}
use pocketclaude.Agent.Git.{LogEntry, trim_left, trim_right, log}
use pocketclaude.Agent.Git.Parsing.{IsPlain, lines_of, log-lines_of}

abbrev fix : LogEntry
fix = record { hash = text "a"; message = text "m"; author = text "u"; date = text "d" }

abbrev print : GoString → List GoString → Option GoString
print dir args = some (lines_of fix (fix ∷ []))

fix-IsPlain : IsPlain fix
fix-IsPlain = (
  ((refl, tt), (refl, tt), (refl, tt)),
  (refl, (refl, (refl, (refl, (refl, (refl, (refl, tt))))))),
)

log-lines_of_example :
    log print (text "/srv")
    ≡ some (record { dir = text "/srv"; entries = fix ∷ fix ∷ []; count = length (fix ∷ fix ∷ []) })
log-lines_of_example =
    log-lines_of print (text "/srv") fix (fix ∷ []) refl (fix-IsPlain, (fix-IsPlain, tt))
      (unfold lines_of trim_left trim_right str_eq in refl)

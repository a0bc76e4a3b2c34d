-- ===== src/Agent/SmallTmux.antt =====
-- A tmux server for tests: a list of names that does what its manual says.
use pocketclaude.Base.{
  GoString, text, str_eq, str_eq_iff, str_eq_refl, has_prefix, has_prefix-append, ◌≡◌, ◌≢◌, refl,
  ap, sym, ◌∙◌, Bool, Bool-cases, true, false, ◌||◌, none, some, inl, inr, List, [], ◌∷◌, ◌++◌,
  append-nil, if◌then◌else◌, arith,
}
use pocketclaude.Agent.Tmux.{Ran, Tmux, full_name}
use pocketclaude.Agent.Tmux.Server.{IsServer}

abbrev pub silent : Ran
silent = record { out = []; err = none }

abbrev pub refused : Ran
refused = record { out = text "can't find session\n"; err = some (text "exit status 1") }

-- A server is the names of its sessions.
unfoldable pub runs_in : List GoString → GoString → Bool
runs_in [] n = false
runs_in (x ∷ w) n = if str_eq n x then true else runs_in w n

unfoldable pub any_begins : List GoString → GoString → Bool
any_begins [] t = false
any_begins (x ∷ w) t = has_prefix x t || any_begins w t

unfoldable pub without : GoString → List GoString → List GoString
without t [] = []
without t (x ∷ w) = let rest = without t w in if str_eq x t then rest else x ∷ rest

unfoldable pub run : List GoString → List GoString → List GoString × Ran
unfolding any_begins without
run (command ∷ t ∷ name ∷ []) w =
    if str_eq command (text "has-session")
    then (w, if any_begins w name then silent else refused)
    else if str_eq command (text "kill-session")
    then (without name w, silent)
    else (w, refused)
run (command ∷ d ∷ s ∷ name ∷ more) w =
    if str_eq command (text "new-session") then (name ∷ w, silent) else (w, refused)
run args w = (w, refused)

-- The names of two sessions, a line for each.
abbrev pub two_names : GoString
two_names = full_name (text "a") ++ text "\nwork\n"

abbrev pub small_tmux : Tmux (List GoString)
small_tmux = record {
  combined_output = run;
  output = λ args w. (w, record { out = two_names; err = none });
}

has_prefix_refl : (s : GoString) → has_prefix s s ≡ true
has_prefix_refl s = ap (λ t. has_prefix t s) (sym (append-nil s)) ∙ has_prefix-append s []

pub runs_in-any_begins :
    (w : List GoString) (t : GoString) → runs_in w t ≡ true → any_begins w t ≡ true
unfolding runs_in any_begins
runs_in-any_begins [] t h = absurd cc
runs_in-any_begins (x ∷ w) t h =
    ground (arith, str_eq_iff t x, has_prefix_refl t, runs_in-any_begins w t)

-- A name that begins so is among them, where one begins so.
begins-runs_in :
    (w : List GoString) (t : GoString)
    → any_begins w t ≡ true
    → (n : GoString) × (has_prefix n t ≡ true) × (runs_in w n ≡ true)
unfolding any_begins runs_in
begins-runs_in [] t h = absurd cc
begins-runs_in (x ∷ w) t h = elim (Bool-cases (has_prefix x t)) [
  | inl begins ↦ (x, begins, rw (str_eq_refl x) refl)
  | inr other ↦
      (let (n, begins, runs) = begins-runs_in w t (rw other at h) in
        (n, begins, ground (arith, runs)))
]

pub runs_in-without :
    (t : GoString) (w : List GoString) (n : GoString)
    → runs_in (without t w) n ≡ (if str_eq n t then false else runs_in w n)
unfolding runs_in without
runs_in-without t [] n = ground arith
runs_in-without t (x ∷ w) n =
    ground (arith, runs_in-without t w n, str_eq_iff n t, str_eq_iff n x, str_eq_iff x t)

pub fails :
    (w : List GoString) (t : GoString)
    → ((n : GoString) → has_prefix n t ≡ true → runs_in w n ≡ false)
    → (if any_begins w t then silent else refused).err ≢ none
fails w t alone e = elim (Bool-cases (any_begins w t)) [
  | inl begins ↦
      (let (n, like, runs) = begins-runs_in w t begins in
        let not_running = alone n like in absurd cc)
  | inr other ↦ (let error = rw other at e in absurd cc)
]

unfoldable pub small_server : IsServer small_tmux
unfolding run str_eq runs_in
small_server = record {
  runs = runs_in;
  has_session =
      λ name w named h. ap (λ b. (w, if b then silent else refused)) (runs_in-any_begins w name h);
  has_no_session = λ name w named alone. (refl, fails w name alone);
  kill_session = λ name w named h. (refl, runs_in-without name w);
}

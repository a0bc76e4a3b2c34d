-- ===== src/Agent/Tmux/Server.antt =====
-- What the functions of tmux.go do to the sessions of a tmux server.
use pocketclaude.Base.{
  GoString, text, str_eq, has_prefix, has_prefix-append, ◌≡◌, ◌≢◌, refl, ℕ, All, leb, ◌==◌, ◌&&◌,
  ◌||◌, ap, sym, ◌∙◌, Option-cases, inl, inr, Bool, true, false, none, List, [], ◌∷◌, append-nil,
  if◌then◌else◌,
}
use pocketclaude.Agent.Git.{trim_left, trim_right}
use pocketclaude.Agent.Tmux.{
  is_silent, Ran, Tmux, full_name, failure_of, has_session_args, kill_session_args,
  tmux_session_exists, kill_tmux_session, run_checked,
}

-- A byte that is special neither in the name of a session nor in a target: a letter, a digit, a dash
-- or an underscore.
unfoldable pub is_name_byte : ℕ → Bool
is_name_byte b =
    (leb 48 b && leb b 57)
    || (leb 65 b && leb b 90)
    || (leb 97 b && leb b 122)
    || b == 45
    || b == 95

-- A name of such bytes that begins with a letter.
abbrev pub IsName : GoString → Type 0
IsName [] = ⊥
IsName (b ∷ name) = (leb 97 b && leb b 122 ≡ true) × All (λ b. is_name_byte b ≡ true) name

-- The manual of tmux, for the commands of this program and such names: `runs` tells the names of the
-- sessions. A target is a session's name or the beginning of one, an exact name first, and it is an
-- error if there is none; `has-session` prints nothing and changes nothing. `kill-session` ends the
-- session of that name and no other.
pub record IsServer {W : Type 0} (tmux : Tmux W) : Type 0 where
  pub runs : W → GoString → Bool
  pub has_session :
      (name : GoString) (w : W)
      → IsName name
      → runs w name ≡ true
      → tmux.combined_output (text "has-session" ∷ text "-t" ∷ name ∷ []) w
        ≡ (w, record { out = []; err = none })
  pub has_no_session :
      (name : GoString) (w : W)
      → IsName name
      → ((n : GoString) → has_prefix n name ≡ true → runs w n ≡ false)
      → let (w', r) = tmux.combined_output (text "has-session" ∷ text "-t" ∷ name ∷ []) w in
        (w' ≡ w) × (r.err ≢ none)
  pub kill_session :
      (name : GoString) (w : W)
      → IsName name
      → runs w name ≡ true
      → let (w', r) = tmux.combined_output (text "kill-session" ∷ text "-t" ∷ name ∷ []) w in
        (r.err ≡ none) × ((n : GoString) → runs w' n ≡ (if str_eq n name then false else runs w n))

full_name-IsName : (id : GoString) → All (λ b. is_name_byte b ≡ true) id → IsName (full_name id)
unfolding is_name_byte
full_name-IsName id h = (
  refl,
  (refl, (refl, (refl, (refl, (refl, (refl, (refl, (refl, (refl, (refl, (refl, (refl, h)))))))))))),
)

-- No session's name begins with the name of the agent's session.
abbrev pub NoneLike : {W : Type 0} {tmux : Tmux W} → IsServer tmux → GoString → W → Type 0
NoneLike server name w =
    (n : GoString) → has_prefix n (full_name name) ≡ true → server.runs w n ≡ false

is_silent-failed : (r : Ran) → r.err ≢ none → is_silent r ≡ false
unfolding is_silent
is_silent-failed r fails = elim (Option-cases r.err) [
  | inl e ↦ absurd (fails e)
  | inr (err, e) ↦ rw (e, is_silent) refl
]

failure_of-none : (what : GoString) (r : Ran) → failure_of what r ≡ none → r.err ≡ none
unfolding failure_of
failure_of-none what r h = elim (Option-cases r.err) [
  | inl e ↦ e
  | inr (err, e) ↦ (let fails = rw (e, failure_of) at h in absurd cc)
]

has_prefix_refl : (s : GoString) → has_prefix s s ≡ true
has_prefix_refl s = ap (λ t. has_prefix t s) (sym (append-nil s)) ∙ has_prefix-append s []

module _ {W : Type 0} (tmux : Tmux W) (server : IsServer tmux) where
  pub tmux_session_exists-true :
      (name : GoString) (w : W)
      → All (λ b. is_name_byte b ≡ true) name
      → server.runs w (full_name name) ≡ true
      → tmux_session_exists tmux name w ≡ (w, true)
  unfolding tmux_session_exists is_silent trim_left trim_right str_eq
  tmux_session_exists-true name w named h =
      ap (λ x. (x.0, is_silent x.1))
        (server.has_session (full_name name) w (full_name-IsName name named) h)

  pub tmux_session_exists-false :
      (name : GoString) (w : W)
      → All (λ b. is_name_byte b ≡ true) name
      → NoneLike server name w
      → tmux_session_exists tmux name w ≡ (w, false)
  unfolding tmux_session_exists
  tmux_session_exists-false name w named h =
      let (same, fails) =
        server.has_no_session (full_name name) w (full_name-IsName name named) h in
      ap (λ w'. (w', is_silent (tmux.combined_output (has_session_args name) w).1)) same
      ∙ ap (λ b. (w, b)) (is_silent-failed _ fails)

  run_checked-err :
      (what : GoString) (args : List GoString) (w : W)
      → (tmux.combined_output args w).1.err ≡ none
      → (run_checked tmux what args w).1 ≡ none
  unfolding run_checked failure_of
  run_checked-err what args w h = rw (h, failure_of) refl

  pub runs-killed :
      (name : GoString) (w : W)
      → All (λ b. is_name_byte b ≡ true) name
      → server.runs w (full_name name) ≡ true
      → ((kill_tmux_session tmux name w).1 ≡ none)
        × ((n : GoString)
            → server.runs (kill_tmux_session tmux name w).0 n
              ≡ (if str_eq n (full_name name) then false else server.runs w n))
  unfolding kill_tmux_session
  runs-killed name w named runs =
      let (fine, ended) =
        server.kill_session (full_name name) w (full_name-IsName name named) runs in
      (run_checked-err (text "kill-session") (kill_session_args name) w fine, ended)

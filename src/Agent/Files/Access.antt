-- ===== src/Agent/Files/Access.antt =====
-- Which paths the allowed directories let through, and what a write leaves to a later read.
use pocketclaude.Base.{
  ℕ, GoString, ◌≡◌, ◌≢◌, ◌⊎◌, inl, inr, refl, ap, true, false, none, some, List, [], ◌∷◌, ◌++◌,
  arith, length, length-append, has_prefix, has_prefix-append, Option-cases, Bool-cases,
}
use pocketclaude.Agent.Files.{
  Os, ok, ReadFileResult, WriteFileResult, resolve_path, any_prefix, check_access, read_file,
  write_file,
}

no_slash : (d rest : GoString) (b : ℕ) → b ≢ 47 → has_prefix (d ++ b ∷ rest) (d ++ 47 ∷ []) ≡ false
unfolding has_prefix
no_slash [] rest b h = ground arith
no_slash (x ∷ d) rest b h = ground (arith, no_slash d rest b h)

module _ {S Info : Type 0} (os : Os S Info) where
  -- Some allowed directory, made absolute, is a prefix of the path.
  abbrev pub Under : GoString → List GoString → Type 0
  Under path [] = ⊥
  Under path (d ∷ dirs) =
      ((a : GoString) × (os.abs d ≡ some a) × (has_prefix path a ≡ true)) ⊎ Under path dirs

  any_prefix-Under :
      (path : GoString) (dirs : List GoString) → any_prefix os path dirs ≡ true → Under path dirs
  unfolding any_prefix
  any_prefix-Under path [] h = cc
  any_prefix-Under path (d ∷ dirs) h = elim (Option-cases (os.abs d)) [
    | inl e ↦ inr (any_prefix-Under path dirs (rw (e, any_prefix) at h))
    | inr (a, e) ↦ elim (Bool-cases (has_prefix path a)) [
      | inl hit ↦ inl (a, e, hit)
      | inr miss ↦ inr (any_prefix-Under path dirs (ground (arith, h, e, miss)))
    ]
  ]

  check_access-Under :
      (dirs : List GoString) (path : GoString)
      → dirs ≢ []
      → check_access os dirs path ≡ none
      → (a : GoString) × (os.abs path ≡ some a) × Under a dirs
  unfolding check_access
  check_access-Under [] path ne h = absurd (ne refl)
  check_access-Under (d ∷ dirs) path ne h = elim (Option-cases (os.abs path)) [
    | inl e ↦ cc (rw (e, check_access) at h)
    | inr (a, e) ↦ (a, e, any_prefix-Under a (d ∷ dirs) (ground (arith, h, e)))
  ]

  write_file-ok :
      (dirs : List GoString) (s : S) (path content : GoString) (r : WriteFileResult)
      → (write_file os dirs s path content).1 ≡ ok r
      → (check_access os dirs r.path ≡ none)
        × (r ≡ record { path = resolve_path os path; size = length content })
        × (let made = os.mkdir_all s (os.dir r.path) in
            (os.write_file made.0 r.path content).1 ≡ true
            × ((write_file os dirs s path content).0 ≡ (os.write_file made.0 r.path content).0))
  unfolding write_file
  write_file-ok dirs s path content r h = ground arith

  -- A write that succeeds under a list of allowed directories is one os.WriteFile, after the directory
  -- of its path was made, and that path, made absolute, begins with one of them: the disk afterwards
  -- is what this one call leaves. The path is the one that is reported, and the one that was asked for
  -- is resolved to it.
  pub write_confined :
      (dirs : List GoString) (s : S) (path content : GoString) (r : WriteFileResult)
      → dirs ≢ []
      → (write_file os dirs s path content).1 ≡ ok r
      → ((a : GoString) × (os.abs r.path ≡ some a) × Under a dirs)
        × (r.path ≡ resolve_path os path)
        × ((write_file os dirs s path content).0
            ≡ (os.write_file (os.mkdir_all s (os.dir r.path)).0 r.path content).0)
  write_confined dirs s path content r some_dirs h =
      let k = write_file-ok dirs s path content r h in
      (
        check_access-Under dirs r.path some_dirs k.0,
        ap (λ (q : WriteFileResult). q.path) k.1,
        k.2.1,
      )

  -- What a successful write has written, a read of the same path returns, with its length, if the
  -- file system returns what was last written to a path.
  pub read-write :
      (dirs : List GoString) (s : S) (path content : GoString) (r : WriteFileResult)
      → ((t : S) (p c : GoString)
          → (os.write_file t p c).1 ≡ true
          → os.read_file (os.write_file t p c).0 p ≡ some c)
      → (write_file os dirs s path content).1 ≡ ok r
      → read_file os dirs (write_file os dirs s path content).0 path
        ≡ ok (record { path = r.path; content = content; size = length content })
  unfolding read_file
  read-write dirs s path content r keeps h =
      let k = write_file-ok dirs s path content r h in
      ground (
        arith,
        k,
        keeps (os.mkdir_all s (os.dir r.path)).0 r.path content k.2.0,
        ap (λ (q : WriteFileResult). q.path) k.1,
      )

  -- Where the access check of a path fails, a write leaves the disk as it was and does not succeed,
  -- and no read of that path succeeds on any disk.
  pub denied_writes_nothing :
      (dirs : List GoString) (s : S) (path content : GoString)
      → check_access os dirs (resolve_path os path) ≢ none
      → ((write_file os dirs s path content).0 ≡ s)
        × ((r : WriteFileResult) → (write_file os dirs s path content).1 ≢ ok r)
        × ((t : S) (r : ReadFileResult) → read_file os dirs t path ≢ ok r)
  unfolding write_file read_file
  denied_writes_nothing dirs s path content h =
      elim (Option-cases (check_access os dirs (resolve_path os path))) [
        | inl e ↦ absurd (h e)
        | inr (x, e) ↦ (
          rw (e, write_file) refl,
          (λ r q. ground (arith, e, q)),
          (λ t r q. ground (arith, e, q)),
        )
      ]

  -- Beside the allowed directory `d`, every path that goes on in the same name, as /srv/app2 does
  -- after /srv/app, is let through too. It is neither `d` nor under `d` and a slash.
  sibling_allowed :
      (d rest : GoString) (b : ℕ)
      → b ≢ 47
      → os.abs d ≡ some d
      → os.abs (d ++ b ∷ rest) ≡ some (d ++ b ∷ rest)
      → (check_access os (d ∷ []) (d ++ b ∷ rest) ≡ none)
        × (d ++ b ∷ rest ≢ d)
        × (has_prefix (d ++ b ∷ rest) (d ++ 47 ∷ []) ≡ false)
  unfolding check_access any_prefix
  sibling_allowed d rest b other hd hp =
      (ground (arith, hd, hp, has_prefix-append d (b ∷ rest)), longer d, no_slash d rest b other)
    where
      longer : (d : GoString) → d ++ b ∷ rest ≢ d
      longer d e = absurd (omega (arith, ap length e, length-append d (b ∷ rest)))

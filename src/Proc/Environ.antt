-- ===== src/Proc/Environ.antt =====
-- ServerInit and SetProcessName of app/proc/hao_server.cpp: the environment is moved away before the
-- name of the process is written over it.
use hao_server.Base.{
  ℕ, ◌+◌, ◌≤◌, ◌<◌, ◌≡◌, refl, sym, ap, ◌∙◌, true, List, [], ◌∷◌, ◌++◌, none, some, ◌>>=◌, leb,
  drop, length, replicate, overwrite, overwrite-append, length-replicate, drop-append_length,
  length-append, length-drop, append-nil, append_assoc, arith, All, map,
}
use hao_server.Proc.{
  Memory, Place, in_area, in_environ, text_of, text_at, space_of, copy_environ, save_environ,
  set_process_name,
}
use hao_server.Proc.Text.{NoNul, text_of-ended, text_of-NoNul}
use hao_server.Proc.Title.{
  titled, set_process_name-titled, length-titled, titled-short, titled-long,
}

-- These pointers point to these texts of the area.
abbrev pub Laid : List ℕ → List Place → List (List ℕ) → Type 0
Laid area [] [] = Unit
Laid area [] (e ∷ es) = ⊥
Laid area (p ∷ ps) [] = ⊥
Laid area (in_area i ∷ ps) (e ∷ es) = (text_of (drop i area) ≡ some e) × Laid area ps es
Laid area (in_environ i ∷ ps) (e ∷ es) = ⊥

-- The space of these texts, each with its 0
abbrev pub space : List (List ℕ) → ℕ
space [] = 0
space (e ∷ es) = length e + 1 + space es

abbrev joined : List (List ℕ) → List ℕ
joined [] = []
joined (e ∷ es) = (e ++ 0 ∷ []) ++ joined es

abbrev places : ℕ → List (List ℕ) → List Place
places temp [] = []
places temp (e ∷ es) = in_environ temp ∷ places (temp + (length e + 1)) es

space_of-Laid :
    (m : Memory) (ps : List Place) (es : List (List ℕ))
    → Laid m.area ps es
    → space_of m ps ≡ some (space es)
unfolding space_of text_at
space_of-Laid m [] [] h = refl
space_of-Laid m [] (e ∷ es) h = absurd h
space_of-Laid m (in_area i ∷ ps) [] h = absurd h
space_of-Laid m (in_environ i ∷ ps) [] h = absurd h
space_of-Laid m (in_area i ∷ ps) (e ∷ es) h = rw (h.0, space_of-Laid m ps es h.1) refl
space_of-Laid m (in_environ i ∷ ps) (e ∷ es) h = absurd h

length-ended : (e : List ℕ) → length (e ++ 0 ∷ []) ≡ length e + 1
length-ended e = omega (arith, length-append e (0 ∷ []))

copy_environ-Laid :
    (ps : List Place) (es : List (List ℕ)) (m : Memory) (temp : ℕ) (pre junk : List ℕ)
    → Laid m.area ps es
    → m.block ≡ pre ++ junk
    → temp ≡ length pre
    → length junk ≡ space es
    → copy_environ ps temp m
      ≡ some (record m { block = pre ++ joined es; environ = m.environ ++ places temp es })
unfolding copy_environ text_at
copy_environ-Laid [] [] m temp pre junk h is at room =
    rw (append-nil pre, append-nil m.environ)
      (ap (λ b. some (record m { block = b }))
        (is ∙ ap (λ l. pre ++ l) (empty junk room) ∙ append-nil pre))
  where
    empty : (xs : List ℕ) → length xs ≡ 0 → xs ≡ []
    empty [] h = refl
    empty (x ∷ xs) h = absurd (omega (arith, h))
copy_environ-Laid [] (e ∷ es) m temp pre junk h is at room = absurd h
copy_environ-Laid (in_area i ∷ ps) [] m temp pre junk h is at room = absurd h
copy_environ-Laid (in_environ i ∷ ps) [] m temp pre junk h is at room = absurd h
copy_environ-Laid (in_environ i ∷ ps) (e ∷ es) m temp pre junk h is at room = absurd h
copy_environ-Laid (in_area i ∷ ps) (e ∷ es) m temp pre junk h is at room =
    let ended = e ++ 0 ∷ [] in
    let left = drop (length ended) junk in
    let inside : leb (temp + (length e + 1)) (length m.block) ≡ true =
      let size = length-append pre junk in
      let whole = ap length is in ground (arith, whole, size, at, room) in
    let copied : overwrite m.block temp ended ≡ (pre ++ ended) ++ left =
      rw (is, at, append_assoc pre ended left) (overwrite-append pre junk ended) in
    let next = record m {
      block = overwrite m.block temp ended;
      environ = m.environ ++ in_environ temp ∷ [];
    } in
    let rest =
      copy_environ-Laid ps es next (temp + (length e + 1)) (pre ++ ended) left h.1 copied
        (omega (arith, at, length-append pre ended, length-ended e))
        (omega (arith, room, length-drop (length ended) junk, length-ended e)) in
    rw
      (
        h.0,
        inside,
        rest,
        append_assoc pre ended (joined es),
        append_assoc m.environ (in_environ temp ∷ []) (places (temp + (length e + 1)) es),
      )
      refl

Laid-NoNul : (area : List ℕ) (ps : List Place) (es : List (List ℕ)) → Laid area ps es → All NoNul es
Laid-NoNul area [] [] h = tt
Laid-NoNul area [] (e ∷ es) h = absurd h
Laid-NoNul area (in_area i ∷ ps) [] h = absurd h
Laid-NoNul area (in_environ i ∷ ps) [] h = absurd h
Laid-NoNul area (in_environ i ∷ ps) (e ∷ es) h = absurd h
Laid-NoNul area (in_area i ∷ ps) (e ∷ es) h =
    (text_of-NoNul (drop i area) e h.0, Laid-NoNul area ps es h.1)

-- The texts that were moved are read back, whatever the area is.
text_at-places :
    (m : Memory) (es : List (List ℕ)) (pre : List ℕ) (temp : ℕ)
    → All NoNul es
    → m.block ≡ pre ++ joined es
    → temp ≡ length pre
    → map (text_at m) (places temp es) ≡ map some es
unfolding text_at
text_at-places m [] pre temp plain is at = refl
text_at-places m (e ∷ es) pre temp plain is at =
    let first : text_of (drop temp m.block) ≡ some e =
      rw
        (
          is,
          drop-append_length temp pre ((e ++ 0 ∷ []) ++ joined es) at,
          append_assoc e (0 ∷ []) (joined es),
        )
        (text_of-ended e (joined es) plain.0) in
    let rest =
      text_at-places m es (pre ++ (e ++ 0 ∷ [])) (temp + (length e + 1)) plain.1
        (is ∙ sym (append_assoc pre (e ++ 0 ∷ []) (joined es)))
        (omega (arith, at, length-append pre (e ++ 0 ∷ []), length-ended e)) in
    rw (first, rest) refl

-- The arguments and the environment fill the area, and the name has no 0. Then ServerInit saves the
-- environment and SetProcessName sets the name without an access out of bounds, and each variable of
-- the environment reads as before. The area keeps its length; the name is read back from its start if
-- it is shorter than the area, and otherwise no 0 ends it.
pub renamed :
    (m : Memory) (argv : List Place) (args envs : List (List ℕ)) (name : List ℕ)
    → Laid m.area argv args
    → Laid m.area m.environ envs
    → space args + space envs ≡ length m.area
    → NoNul name
    → (t : Memory) × ((save_environ argv m >>= λ saved. set_process_name name saved) ≡ some t)
      × (map (text_at t) t.environ ≡ map some envs)
      × (length t.area ≡ length m.area)
      × (length name < length m.area → text_at t (in_area 0) ≡ some name)
      × (length m.area ≤ length name → text_at t (in_area 0) ≡ none)
unfolding save_environ text_at
renamed m argv args envs name laid_args laid_envs filled plain =
    let moved = record m {
      argv_space = space args;
      env_space = space envs;
      block = joined envs;
      environ = places 0 envs;
    } in
    let saved : save_environ argv m ≡ some moved =
      rw (space_of-Laid m argv args laid_args, space_of-Laid m m.environ envs laid_envs)
        (copy_environ-Laid m.environ envs
          (record m {
            argv_space = space args;
            env_space = space envs;
            block = replicate (space envs) 0;
            environ = [];
          })
          0 [] (replicate (space envs) 0) laid_envs refl refl
          (length-replicate {A = ℕ} (space envs) 0)) in
    let t = record moved { area = titled name (length m.area) } in
    (
      t,
      rw saved (set_process_name-titled name moved plain filled),
      text_at-places t envs [] 0 (Laid-NoNul m.area m.environ envs laid_envs) refl refl,
      length-titled name (length m.area),
      titled-short name (length m.area) plain,
      titled-long name (length m.area) plain,
    )

-- ===== src/Proc/Title.antt =====
-- SetProcessName of app/proc/hao_server.cpp, which writes over the arguments and the environment.
use hao_server.Base.{
  ℕ, zero, suc, ◌+◌, ◌-◌, ◌≤◌, ◌<◌, ◌≡◌, refl, subst, true, List, [], ◌∷◌, ◌++◌, none, some, leb,
  drop, take, length, replicate, overwrite, overwrite-append, length-take, length-drop,
  length-replicate, length-append, take_all, append-nil, arith,
}
use hao_server.Proc.{Memory, min, strncpy, set_process_name, text_of}
use hao_server.Proc.Text.{NoNul, text_of-ended, text_of-unended, strncpy-whole, take-NoNul}

-- The area with this name
abbrev pub titled : List ℕ → ℕ → List ℕ
titled name space =
    take (min space (length name)) name ++ replicate (space - min space (length name)) 0

drop_all : (n : ℕ) (xs : List ℕ) → length xs ≤ n → drop n xs ≡ []
drop_all zero [] h = refl
drop_all zero (x ∷ xs) h = absurd (omega (arith, h))
drop_all (suc n) [] h = refl
drop_all (suc n) (x ∷ xs) h = drop_all n xs (omega (arith, h))

min_left : (a b : ℕ) → min a b ≤ a
min_left a b = ground arith

min_right : (a b : ℕ) → min a b ≤ b
min_right a b = ground arith

-- `front`, and zeros behind it, over all of `area`
both_writes :
    (area front : List ℕ)
    → length front ≤ length area
    → overwrite (overwrite area 0 front) (length front) (replicate (length area - length front) 0)
      ≡ front ++ replicate (length area - length front) 0
both_writes area front le =
    let zeros : List ℕ = replicate (length area - length front) 0 in
    let nothing_left : drop (length zeros) (drop (length front) area) ≡ [] =
      drop_all (length zeros) (drop (length front) area) (
        omega (
          arith,
          length-drop (length front) area,
          length-replicate {A = ℕ} (length area - length front) 0,
        )) in
    rw
      (
        overwrite-append [] area front,
        overwrite-append front (drop (length front) area) zeros,
        nothing_left,
        append-nil zeros,
      )
      refl

module _ (name : List ℕ) (m : Memory) where
  pub set_process_name-titled :
      NoNul name
      → m.argv_space + m.env_space ≡ length m.area
      → set_process_name name m ≡ some (record m { area = titled name (length m.area) })
  unfolding set_process_name
  set_process_name-titled plain space =
      let n = min (length m.area) (length name) in
      let inside : leb (length m.area) (length m.area) ≡ true = ground arith in
      let copied : strncpy n name ≡ take n name =
        strncpy-whole n name plain (min_right (length m.area) (length name)) in
      let size : length (take n name) ≡ n =
        length-take n name (min_right (length m.area) (length name)) in
      let written : overwrite (overwrite m.area 0 (take n name)) n (replicate (length m.area - n) 0)
          ≡ titled name (length m.area) =
        subst
          (λ k.
            overwrite (overwrite m.area 0 (take n name)) k (replicate (length m.area - k) 0)
            ≡ take n name ++ replicate (length m.area - k) 0)
          size
          (both_writes m.area (take n name)
            (omega (arith, size, min_left (length m.area) (length name)))) in
      rw (space, inside, copied, written) refl

pub length-titled : (name : List ℕ) (space : ℕ) → length (titled name space) ≡ space
length-titled name space =
    let n = min space (length name) in
    omega (
      arith,
      length-append (take n name) (replicate (space - n) 0),
      length-take n name (min_right space (length name)),
      length-replicate {A = ℕ} (space - n) 0,
      min_left space (length name),
    )

pub titled-short :
    (name : List ℕ) (space : ℕ)
    → NoNul name
    → length name < space
    → text_of (titled name space) ≡ some name
titled-short name space plain short =
    let n : min space (length name) ≡ length name = ground (arith, short) in
    let left : space - length name ≡ suc (space - length name - 1) = omega (arith, short) in
    rw (n, take_all (length name) name (omega arith), left)
      (text_of-ended name (replicate (space - length name - 1) 0) plain)

pub titled-long :
    (name : List ℕ) (space : ℕ)
    → NoNul name
    → space ≤ length name
    → text_of (titled name space) ≡ none
titled-long name space plain long =
    let n : min space (length name) ≡ space = ground (arith, long) in
    let left : space - space ≡ 0 = omega arith in
    rw (n, left, append-nil (take space name))
      (text_of-unended (take space name) (take-NoNul space name plain))

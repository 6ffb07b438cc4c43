-- ===== src/Proc.antt =====
-- app/proc/hao_server.cpp: the memory of the arguments and the environment, and the name of the
-- process. The arguments and the environment lie in one area, as the kernel lays them out, behind each
-- other; `none` is an access outside of the area or of g_environ. Text is bytes and ends at a 0.
pub mod Text
pub mod Title
pub mod Environ
pub mod Workers
pub mod Daemon
use hao_server.Base.{
  ℕ, zero, suc, ◌+◌, ◌-◌, ◌<◌, Bool, true, false, List, [], ◌∷◌, ◌++◌, Option, none, some, ◌>>=◌,
  ltb, leb, ◌==◌, if◌then◌else◌, drop, length, replicate, overwrite,
}

-- A pointer into the area or into g_environ
pub data Place : Type 0 where
  in_area : ℕ → Place
  in_environ : ℕ → Place

pub record Memory : Type 0 where
  -- from g_os_argv[0] on
  pub area : List ℕ
  -- g_environ, environ
  pub block : List ℕ
  pub environ : List Place
  pub argv_space : ℕ
  pub env_space : ℕ

-- The text that starts here, up to its 0
unfoldable pub text_of : List ℕ → Option (List ℕ)
text_of [] = none
text_of (c ∷ cs) = let rest = text_of cs in if c == 0 then some [] else rest >>= λ r. some (c ∷ r)

unfoldable pub text_at : Memory → Place → Option (List ℕ)
text_at m (in_area i) = text_of (drop i m.area)
text_at m (in_environ i) = text_of (drop i m.block)

abbrev pub min : ℕ → ℕ → ℕ
min a b = if ltb b a then b else a

-- strncpy: the bytes that it writes
unfoldable pub strncpy : ℕ → List ℕ → List ℕ
strncpy zero src = []
strncpy (suc n) [] = 0 ∷ strncpy n []
strncpy (suc n) (c ∷ cs) = let rest = strncpy n cs in if c == 0 then 0 ∷ strncpy n [] else c ∷ rest

-- SetProcessName
unfoldable pub set_process_name : List ℕ → Memory → Option Memory
set_process_name process_name m =
    let available_space = m.argv_space + m.env_space in
    let name_len = min available_space (length process_name) in
    let named = overwrite m.area 0 (strncpy name_len process_name) in
    let cleared = overwrite named name_len (replicate (available_space - name_len) 0) in
    if leb available_space (length m.area) then some (record m { area = cleared }) else none

-- The loops of ServerInit that add up the space of the texts, each with its 0
unfoldable pub space_of : Memory → List Place → Option ℕ
space_of m [] = some 0
space_of m (p ∷ ps) = do text ← text_at m p; rest ← space_of m ps; some (length text + 1 + rest)

-- The loop of ServerInit that copies the environment: strcpy to `temp`, and the pointer moved there
unfoldable pub copy_environ : List Place → ℕ → Memory → Option Memory
copy_environ [] temp m = some m
copy_environ (p ∷ ps) temp m = do
  text ← text_at m p
  let size = length text + 1
  copied ←
      if leb (temp + size) (length m.block)
      then some (overwrite m.block temp (text ++ 0 ∷ []))
      else none
  copy_environ ps (temp + size)
      (record m { block = copied; environ = m.environ ++ in_environ temp ∷ [] })

-- ServerInit, where it saves the environment. The loop reads the pointers that it has not moved yet.
unfoldable pub save_environ : List Place → Memory → Option Memory
save_environ argv m = do
  argv_space ← space_of m argv
  env_space ← space_of m m.environ
  copy_environ m.environ 0 (record m {
    argv_space = argv_space;
    env_space = env_space;
    block = replicate env_space 0;
    environ = [];
  })

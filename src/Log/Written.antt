-- ===== src/Log/Written.antt =====
-- A whole line of the log, app/log/hao_log.cpp, from the constructor of Log to its destructor.
use hao_server.Base.{
  ℕ, zero, suc, ◌+◌, ◌-◌, ◌≤◌, ◌≡◌, ◌≢◌, refl, sym, ap, ◌∙◌, true, false, List, [], ◌∷◌, ◌++◌,
  arith, take, drop, All, ◌*◌, ◌^◌, ◌<◌, ◌==◌, if◌then◌else◌, Option, some, ◌>>=◌, length,
  length-append, length-take, length-drop, append_assoc, append-nil, take-append-drop,
}
use hao_server.Base.Int.{pos}
use hao_server.Base.Decimal.{decimal}
use hao_server.Log.Clock.{IsTime, time_text, stamp_lem}
use hao_server.Log.Line.{
  shown_all, IsLogged, extended, extended-append, append-Fits, log_items-Fits,
}
use hao_server.Log.{
  Log, LogItem, char, number, text, log_items, log_line_size, BrokenTime, levels, h_level_string,
  new_log, end_line, WriteAnswer, wrote, no_space, failed, write_line,
}

-- The calls of write put out a front part of the line; if no disk is full and the loop ends, the whole.
pub write_line-prefix :
    (answers : List WriteAnswer) (line : List ℕ)
    → let r = write_line answers line in
      (left : List ℕ) × (r.0 ++ left ≡ line)
      × (All (λ a. a ≢ no_space) answers → r.1 ≡ true → left ≡ [])
unfolding write_line
write_line-prefix answers [] = ([], refl, λ h e. refl)
write_line-prefix [] (c ∷ cs) = (c ∷ cs, refl, λ h e. absurd (cc e))
write_line-prefix (wrote n ∷ answers) (c ∷ cs) =
    let (left, whole, all) = write_line-prefix answers (drop n (c ∷ cs)) in
    (
      left,
      append_assoc (take n (c ∷ cs)) (write_line answers (drop n (c ∷ cs))).0 left
          ∙ ap (λ l. take n (c ∷ cs) ++ l) whole
          ∙ take-append-drop n (c ∷ cs),
      λ h e. all h.1 e,
    )
write_line-prefix (no_space ∷ answers) (c ∷ cs) = (c ∷ cs, refl, λ h e. absurd (h.0 refl))
write_line-prefix (failed ∷ answers) (c ∷ cs) =
    let (left, whole, all) = write_line-prefix answers (c ∷ cs) in (left, whole, λ h e. all h.1 e)

length-h_level_string : (level : ℕ) → level ≤ 8 → length (h_level_string level) ≡ 8
unfolding h_level_string
length-h_level_string level h =
    length-take 8 (drop (level * 8) levels) (omega (arith, length-drop (level * 8) levels, h))

-- The texts of the levels, each with its number
abbrev pub level_text : ℕ → List ℕ
level_text zero = b'[' ∷ b' ' ∷ b' ' ∷ b' ' ∷ b' ' ∷ b' ' ∷ b' ' ∷ b']' ∷ []
level_text (suc zero) = b'[' ∷ b'e' ∷ b'm' ∷ b'e' ∷ b'r' ∷ b'g' ∷ b' ' ∷ b']' ∷ []
level_text (suc (suc zero)) = b'[' ∷ b'a' ∷ b'l' ∷ b'e' ∷ b'r' ∷ b't' ∷ b' ' ∷ b']' ∷ []
level_text (suc (suc (suc zero))) = b'[' ∷ b'c' ∷ b'r' ∷ b'i' ∷ b't' ∷ b' ' ∷ b' ' ∷ b']' ∷ []
level_text (suc (suc (suc (suc zero)))) = b'[' ∷ b'e' ∷ b'r' ∷ b'r' ∷ b'o' ∷ b'r' ∷ b' ' ∷ b']' ∷ []
level_text (suc (suc (suc (suc (suc zero))))) =
    b'[' ∷ b'w' ∷ b'a' ∷ b'r' ∷ b'n' ∷ b' ' ∷ b' ' ∷ b']' ∷ []
level_text (suc (suc (suc (suc (suc (suc zero)))))) =
    b'[' ∷ b'n' ∷ b'o' ∷ b't' ∷ b'i' ∷ b'c' ∷ b'e' ∷ b']' ∷ []
level_text (suc (suc (suc (suc (suc (suc (suc zero))))))) =
    b'[' ∷ b'i' ∷ b'n' ∷ b'f' ∷ b'o' ∷ b' ' ∷ b' ' ∷ b']' ∷ []
level_text (suc (suc (suc (suc (suc (suc (suc (suc zero)))))))) =
    b'[' ∷ b'd' ∷ b'e' ∷ b'b' ∷ b'u' ∷ b'g' ∷ b' ' ∷ b']' ∷ []
level_text level = []

h_level_string_lem : (level : ℕ) → level ≤ 8 → h_level_string level ≡ level_text level
unfolding h_level_string
h_level_string_lem zero h = refl
h_level_string_lem (suc zero) h = refl
h_level_string_lem (suc (suc zero)) h = refl
h_level_string_lem (suc (suc (suc zero))) h = refl
h_level_string_lem (suc (suc (suc (suc zero)))) h = refl
h_level_string_lem (suc (suc (suc (suc (suc zero))))) h = refl
h_level_string_lem (suc (suc (suc (suc (suc (suc zero)))))) h = refl
h_level_string_lem (suc (suc (suc (suc (suc (suc (suc zero))))))) h = refl
h_level_string_lem (suc (suc (suc (suc (suc (suc (suc (suc zero)))))))) h = refl
h_level_string_lem (suc (suc (suc (suc (suc (suc (suc (suc (suc level))))))))) h =
    absurd (omega (arith, h))

-- What stands behind the time in a line without an error
abbrev pub place_text : ℕ → ℕ → List ℕ → ℕ → List ℕ
place_text pid level filename line =
    (decimal pid ++ b' ' ∷ [])
    ++ (level_text level ++ (b'[' ∷ (filename ++ (b' ' ∷ (decimal line ++ b']' ∷ [])))))

new_log-Fits :
    (time : BrokenTime) (pid level : ℕ) (filename : List ℕ) (line : ℕ) (error_text : List ℕ)
    → IsTime time
    → pid < 10 ^ 19
    → line < 10 ^ 19
    → level ≤ 8
    → length (place_text pid level filename line) + 48 ≤ 4096 - 27
    → new_log time (pos pid) level filename line (pos 0) error_text
      ≡ some (
          extended
            (record { buffer = time_text time; free_space = 4096 - 27 })
            (place_text pid level filename line))
unfolding new_log
new_log-Fits time pid level filename line error_text year small short known room =
    let start : Log = record { buffer = time_text time; free_space = 4096 - 27 } in
    let ahead = decimal pid ++ b' ' ∷ [] in
    let name = level_text level in
    let place = b'[' ∷ (filename ++ (b' ' ∷ (decimal line ++ b']' ∷ []))) in
    let size = length-append ahead (name ++ place) in
    let size' = length-append name place in
    let named = h_level_string_lem level known in
    let eight : length (level_text level) ≡ 8 =
      sym (ap length named) ∙ length-h_level_string level known in
    rw
      (
        new_log,
        stamp_lem time year,
        log_items-Fits (number (pos pid) ∷ char b' ' ∷ []) start (small, (tt, tt))
            (omega (arith, room, size)),
        named,
        append-Fits (extended start ahead) name (omega (arith, room, size, size', eight)),
        log_items-Fits (char b'[' ∷ text filename ∷ char b' ' ∷ number (pos line) ∷ char b']' ∷ [])
            (extended (extended start ahead) name) (tt, (tt, (tt, (short, (tt, tt)))))
            (omega (arith, room, size, size', eight)),
      )
      (ap some (
        extended-append (extended start ahead) name place
        ∙ extended-append start ahead (name ++ place)))

-- The bytes of a line with these items
abbrev pub line_text : BrokenTime → ℕ → ℕ → List ℕ → ℕ → List LogItem → List ℕ
line_text time pid level filename line is =
    (time_text time ++ (place_text pid level filename line ++ shown_all is)) ++ 10 ∷ []

-- A log statement without an error number, whose line fits: its time, its place and its items, and what
-- is written when it ends
abbrev pub logged :
    BrokenTime → ℕ → ℕ → List ℕ → ℕ → List LogItem → List WriteAnswer → Option (List ℕ)
logged time pid level filename line is answers = do
  l ← new_log time (pos pid) level filename line (pos 0) []
  m ← log_items is l
  some ((write_line answers (end_line m)).0)

-- A statement of the log without an error number, at a time of day in a year before 10000, with a known level, numbers that
-- are not negative and have 19 digits at most, no pending full disk, and a line with 48 bytes to
-- spare: once its calls of write are through, exactly the time, the process id, the level, the file and
-- line number, the items and a newline are written, however write cuts the line up and however often it
-- fails.
pub line_written :
    (time : BrokenTime) (pid level : ℕ) (filename : List ℕ) (line : ℕ) (is : List LogItem)
    (answers : List WriteAnswer)
    → IsTime time
    → pid < 10 ^ 19
    → line < 10 ^ 19
    → level ≤ 8
    → All IsLogged is
    → length (place_text pid level filename line ++ shown_all is) + 48 ≤ 4096 - 27
    → All (λ a. a ≢ no_space) answers
    → (write_line answers (line_text time pid level filename line is)).1 ≡ true
    → logged time pid level filename line is answers
      ≡ some (line_text time pid level filename line is)
unfolding end_line
line_written time pid level filename line is answers year small short known fine room disk ends =
    let place = place_text pid level filename line in
    let start : Log = record { buffer = time_text time; free_space = 4096 - 27 } in
    let size = length-append place (shown_all is) in
    let full = length-append (time_text time) (place ++ shown_all is) in
    let open_end : (length (time_text time ++ (place ++ shown_all is)) == log_line_size) ≡ false =
      ground (arith, full, room) in
    let out = line_text time pid level filename line is in
    let (left, whole, all) = write_line-prefix answers out in
    rw
      (
        new_log-Fits time pid level filename line [] year small short known
            (omega (arith, room, size)),
        log_items-Fits is (extended start place) fine (omega (arith, room, size)),
      )
      (ap (λ l. some (write_line answers (end_line l)).0)
          (extended-append start place (shown_all is))
        ∙ ap
            (λ b.
              some
                (write_line answers
                  (if b then time_text time ++ (place ++ shown_all is) else out)).0)
            open_end
        ∙ ap some (
            sym (append-nil (write_line answers out).0)
            ∙ ap (λ l. (write_line answers out).0 ++ l) (sym (all disk ends))
            ∙ whole))

-- ===== src/Console/Edit.antt =====
-- `consoleintr` (kernel/console.c) against a line editor on lists.
use operating_system_se.Base.{
  ℕ, zero, suc, ◌+◌, ◌-◌, ◌%◌, ◌≤◌, ◌<◌, ◌≡◌, refl, ap, sym, ◌∙◌, subst, false, not, ◌&&◌, ◌||◌,
  List, [], ◌∷◌, ◌++◌, arith, get_or, length, length-append, ltb, ◌==◌, if◌then◌else◌, inl, inr,
  Bool-cases,
}
use operating_system_se.Console.{
  Console, Effect, list_processes, wake_readers, buf_size, backspace, sub_32, consputc, kill_line,
  store_char, type_char, consoleintr,
}
use operating_system_se.Console.Ring.{span, length-span, get_or-span, Holds}
use operating_system_se.Console.Store.{store_char-line, store_char-end}

-- The lines as a user sees them: what readers may take, and the line being typed.
pub record Lines : Type 0 where
  pub ready : List ℕ
  pub line : List ℕ

abbrev drop_last : List ℕ → List ℕ
drop_last [] = []
drop_last (x ∷ []) = []
drop_last (x ∷ y ∷ ys) = x ∷ drop_last (y ∷ ys)

abbrev erase_all : ℕ → List Effect
erase_all zero = []
erase_all (suc n) = consputc backspace ++ erase_all n

-- A character is appended to the line, if there is room; a newline, control-d or a full ring ends the line.
abbrev append_char : ℕ → Lines → Lines × List Effect
append_char ch s =
    let ch' = if ch == 13 then 10 else ch in
    let line' = s.line ++ (ch' ∷ []) in
    if ch == 0 || not (ltb (length s.ready + length s.line) buf_size)
    then (s, [])
    else if ch' == 10 || ch' == 4 || length s.ready + length line' == buf_size
    then (record { ready = s.ready ++ line'; line = [] }, consputc ch' ++ (wake_readers ∷ []))
    else (record { ready = s.ready; line = line' }, consputc ch')

-- The editor: control-u drops the line, control-h and delete its last character.
abbrev pub edit : ℕ → Lines → Lines × List Effect
edit ch s =
    if ch == 16
    then (s, list_processes ∷ [])
    else if ch == 21
    then (record { ready = s.ready; line = [] }, erase_all (length s.line))
    else if ch == 8 || ch == 127
    then (if length s.line == 0
        then (s, [])
        else (record { ready = s.ready; line = drop_last s.line }, consputc backspace))
    else append_char ch s

drop_last-span : (d : List ℕ) (p n : ℕ) → drop_last (span d p (suc n)) ≡ span d p n
drop_last-span d p zero = refl
drop_last-span d p (suc n) = ap (λ bs. get_or d (p % buf_size) 0 ∷ bs) (drop_last-span d (p + 1) n)

-- The counters agree exactly if the line is empty.
at_start :
    (c : Console) (ready line : List ℕ) → Holds c ready line → (c.e == c.w) ≡ (length line == 0)
at_start c ready line h = ground (arith, h.writes, h.edits, h.bounded)

-- The last character is dropped from a line of `n` + 1 characters.
erase_last :
    (n : ℕ) (c : Console) (ready line : List ℕ)
    → Holds c ready line
    → length line ≡ suc n
    → Holds (record c { e = sub_32 c.e 1 }) ready (drop_last line) × (length (drop_last line) ≡ n)
erase_last n c ready line h len =
    let p : ℕ = c.r + length ready in
    let was : line ≡ span c.buf p (suc n) = h.is_line ∙ ap (span c.buf p) len in
    let now : drop_last line ≡ span c.buf p n = ap drop_last was ∙ drop_last-span c.buf p n in
    let count : length (drop_last line) ≡ n = ap length now ∙ length-span c.buf p n in
    (
      record {
        room = h.room;
        reads = h.reads;
        writes = h.writes;
        edits = omega (arith, h.edits, len, count);
        bounded = omega (arith, h.bounded, len, count);
        is_ready = h.is_ready;
        is_line = now ∙ ap (span c.buf p) (sym count);
        open_line = λ k lt e. h.open_line k (omega (arith, len, count)) (
            ap (λ l. get_or l k 0) was
            ∙ get_or-span c.buf p (suc n) k (omega (arith, count))
            ∙ sym (get_or-span c.buf p n k (omega (arith, count)))
            ∙ sym (ap (λ l. get_or l k 0) now)
            ∙ e);
      },
      count,
    )

empty : (line : List ℕ) → length line ≡ 0 → line ≡ []
empty [] e = refl
empty (x ∷ line) e = absurd (omega (arith, e))

-- The character before the edit index is the last of the line.
last_char :
    (n : ℕ) (c : Console) (ready line : List ℕ)
    → Holds c ready line
    → length line ≡ suc n
    → get_or c.buf (sub_32 c.e 1 % buf_size) 0 ≡ get_or line n 0
last_char n c ready line h len =
    ap (λ i. get_or c.buf i 0) (omega (arith, h.edits, len))
    ∙ sym (get_or-span c.buf (c.r + length ready) (suc n) n (omega arith))
    ∙ sym (ap (λ l. get_or l n 0) (h.is_line ∙ ap (span c.buf (c.r + length ready)) len))

kill_line-Holds :
    (fuel : ℕ) (c : Console) (ready line : List ℕ)
    → Holds c ready line
    → length line ≤ fuel
    → Holds (kill_line fuel c).0 ready [] × ((kill_line fuel c).1 ≡ erase_all (length line))
unfolding kill_line
kill_line-Holds zero c ready line h enough =
    let none : length line ≡ 0 = omega arith in
    (subst (Holds c ready) (empty line none) h, rw none refl)
kill_line-Holds (suc fuel) c ready line h enough =
    let start = at_start c ready line h in
    elim (Bool-cases (length line == 0)) [
      | inl e ↦
          let none : length line ≡ 0 = ground arith in
          rw (start, e) (subst (Holds c ready) (empty line none) h, rw none refl)
      | inr more ↦
          let n : ℕ = length line - 1 in
          let len : length line ≡ suc n = ground arith in
          let (next, count) = erase_last n c ready line h len in
          let (done, events) =
            kill_line-Holds fuel (record c { e = sub_32 c.e 1 }) ready (drop_last line) next
              (omega (arith, count, len)) in
          let plain : (get_or c.buf (sub_32 c.e 1 % buf_size) 0 == 10) ≡ false =
            ground (arith, h.open_line n (omega (arith, len)), last_char n c ready line h len) in
          rw (start, more, plain)
            (
              done,
              ap (λ es. consputc backspace ++ es) (events ∙ ap erase_all count)
                  ∙ ap erase_all (sym len),
            )
    ]

store_full :
    (ch' : ℕ) (c : Console) (s : Lines)
    → Holds c s.ready s.line
    → length s.ready + length s.line < buf_size
    → sub_32 (store_char ch' c).e (store_char ch' c).r
      ≡ length s.ready + length (s.line ++ (ch' ∷ []))
unfolding store_char
store_full ch' c s h few = omega (arith, h.edits, h.reads, length-append s.line (ch' ∷ []))

type_char-append :
    (ch : ℕ) (c : Console) (s : Lines)
    → Holds c s.ready s.line
    → Holds (type_char ch c).0 (append_char ch s).0.ready (append_char ch s).0.line
      × ((type_char ch c).1 ≡ (append_char ch s).1)
unfolding type_char
type_char-append ch c s h =
    let ch' : ℕ = if ch == 13 then 10 else ch in
    let used : sub_32 c.e c.r ≡ length s.ready + length s.line =
      omega (arith, h.edits, h.bounded, h.reads) in
    let accepts : (not (ch == 0) && ltb (sub_32 c.e c.r) buf_size)
        ≡ not (ch == 0 || not (ltb (length s.ready + length s.line) buf_size)) =
      ground (arith, used) in
    elim (Bool-cases (ch == 0 || not (ltb (length s.ready + length s.line) buf_size))) [
      | inl no_room ↦ rw (accepts, no_room) (h, refl)
      | inr room ↦
          let few : length s.ready + length s.line < buf_size = ground arith in
          let full = store_full ch' c s h few in
          elim (Bool-cases
            (ch' == 10 || ch' == 4 || length s.ready + length (s.line ++ (ch' ∷ [])) == buf_size)) [
              | inl ends ↦
                  rw (accepts, room, full, ends) (store_char-end ch' c s.ready s.line h few, refl)
              | inr goes_on ↦
                  rw (accepts, room, full, goes_on)
                    (store_char-line ch' c s.ready s.line h few (ground arith), refl)
            ]
    ]

-- On a console that holds the bytes `ready` and the line `line`, `consoleintr` does what the editor on lists
-- does: it holds the edited lists then, and has sent and done the same, for any character.
pub consoleintr-edit :
    (ch : ℕ) (c : Console) (s : Lines)
    → Holds c s.ready s.line
    → Holds (consoleintr ch c).0 (edit ch s).0.ready (edit ch s).0.line
      × ((consoleintr ch c).1 ≡ (edit ch s).1)
unfolding consoleintr
consoleintr-edit ch c s h = elim (Bool-cases (ch == 16)) [
  | inl p ↦ rw p (h, refl)
  | inr not_p ↦ elim (Bool-cases (ch == 21)) [
    | inl u ↦ rw (not_p, u) (kill_line-Holds buf_size c s.ready s.line h (omega (arith, h.bounded)))
    | inr not_u ↦ elim (Bool-cases (ch == 8 || ch == 127)) [
      | inl b ↦
          let start = at_start c s.ready s.line h in
          elim (Bool-cases (length s.line == 0)) [
            | inl z ↦ rw (not_p, not_u, b, start, z) (h, refl)
            | inr nz ↦
                rw (not_p, not_u, b, start, nz)
                  ((erase_last (length s.line - 1) c s.ready s.line h (ground arith)).0, refl)
          ]
      | inr not_b ↦ rw (not_p, not_u, not_b) (type_char-append ch c s h)
    ]
  ]
]

-- ===== src/Console/Store.antt =====
-- A character is stored in the ring of kernel/console.c: it joins the line, or ends it.
use operating_system_se.Base.{
  ℕ, zero, suc, ◌+◌, ◌%◌, ◌≤◌, ◌<◌, ◌≡◌, ◌≢◌, refl, ap, ap₂, sym, ◌∙◌, List, [], ◌∷◌, ◌++◌, arith,
  get_or, length, length-append, length-set, ◌==◌, if◌then◌else◌,
}
use operating_system_se.Console.{Console, buf_size, store_char}
use operating_system_se.Console.Ring.{span, span-append, span-set_ne, span-set, Holds}

-- A character is stored behind the line.
store_char-span :
    (ch : ℕ) (c : Console) (ready line : List ℕ)
    → Holds c ready line
    → length ready + length line < buf_size
    → (ready ≡ span (store_char ch c).buf c.r (length ready))
      × (line ++ (ch ∷ []) ≡ span (store_char ch c).buf (c.r + length ready) (suc (length line)))
unfolding store_char
store_char-span ch c ready line h room =
    let p : ℕ = c.r + length ready in
    (
      h.is_ready
          ∙ sym (
              span-set_ne c.buf c.r (length ready) (length line) _ ch room
                (omega (arith, h.edits))),
      ap (λ l. l ++ (ch ∷ [])) h.is_line
          ∙ sym (span-set c.buf p (length line) _ ch h.room (omega arith) (omega (arith, h.edits))),
    )

get_or-append :
    (xs : List ℕ) (ch k : ℕ)
    → k ≤ length xs
    → get_or (xs ++ (ch ∷ [])) k 0 ≡ (if k == length xs then ch else get_or xs k 0)
get_or-append [] ch zero h = refl
get_or-append [] ch (suc k) h = absurd (omega arith)
get_or-append (x ∷ xs) ch zero h = ground arith
get_or-append (x ∷ xs) ch (suc k) h = get_or-append xs ch k (omega arith) ∙ ground arith

pub store_char-line :
    (ch : ℕ) (c : Console) (ready line : List ℕ)
    → Holds c ready line
    → length ready + length line < buf_size
    → ch ≢ 10
    → Holds (store_char ch c) ready (line ++ (ch ∷ []))
unfolding store_char
store_char-line ch c ready line h room plain =
    let (first, second) = store_char-span ch c ready line h room in
    let count : length (line ++ (ch ∷ [])) ≡ suc (length line) =
      length-append line (ch ∷ []) ∙ omega arith in
    record {
      room = length-set c.buf (c.e % buf_size) ch ∙ h.room;
      reads = h.reads;
      writes = h.writes;
      edits = omega (arith, h.edits, count);
      bounded = omega (arith, count);
      is_ready = first;
      is_line = second ∙ ap (span (store_char ch c).buf (c.r + length ready)) (sym count);
      open_line = λ k lt e.
          ground (arith, get_or-append line ch k (omega (arith, count)), h.open_line k, plain, e);
    }

pub store_char-end :
    (ch : ℕ) (c : Console) (ready line : List ℕ)
    → Holds c ready line
    → length ready + length line < buf_size
    → Holds (record (store_char ch c) { w = (store_char ch c).e }) (ready ++ (line ++ (ch ∷ []))) []
unfolding store_char
store_char-end ch c ready line h room =
    let (first, second) = store_char-span ch c ready line h room in
    let d : List ℕ = (store_char ch c).buf in
    let count : length (ready ++ (line ++ (ch ∷ []))) ≡ length ready + suc (length line) =
      length-append ready (line ++ (ch ∷ []))
      ∙ ap (λ n. length ready + n) (length-append line (ch ∷ []))
      ∙ omega arith in
    record {
      room = length-set c.buf (c.e % buf_size) ch ∙ h.room;
      reads = h.reads;
      writes = omega (arith, h.edits, count);
      edits = omega (arith, h.edits, count);
      bounded = omega (arith, count);
      is_ready =
          ap₂ ◌++◌ first second
          ∙ span-append d c.r (length ready) (suc (length line))
          ∙ ap (span d c.r) (sym count);
      is_line = refl;
      open_line = λ k lt. absurd (omega arith);
    }

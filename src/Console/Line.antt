-- ===== src/Console/Line.antt =====
-- Reading a line: what the buffer holds, and that it does not overflow.
use innovati_os.Base.{
  ℕ, zero, suc, ◌+◌, ◌-◌, ◌^◌, ◌≤◌, ◌<◌, ◌≡◌, refl, sym, subst, ◌⊎◌, inl, inr, true, false, ◌&&◌,
  Bool-cases, Option, none, some, List, [], ◌∷◌, ◌++◌, ◌==◌, ltb, leb, if◌then◌else◌, update, arith,
  length, get_or, length-append, ℕ_discrete, sub64,
}
use innovati_os.Strings.{Bytes, k_memset}
use innovati_os.Strings.Copy.{k_memset_lem}
use innovati_os.Strings.Text.{Holds}
use innovati_os.Strings.Concat.{get_or-append}
use innovati_os.Vfs.{Str, drop_char}
use innovati_os.Console.{
  Console, Reading, newline, backspace, space, console_putc, echo, read_step, read_loop,
  console_readline,
}
use innovati_os.Console.Cells.{IsConsole}
use innovati_os.Console.Cursor.{OnScreen, OnScreen-refl, OnScreen-trans, console_putc-OnScreen}

-- What one key does to the line: a backspace takes the last character, and a printable character
-- that leaves room for the NUL is appended.
unfoldable pub type_key : ℕ → Str → ℕ → Str
type_key len line c =
    if c == backspace
    then drop_char line
    else if ltb (length line + 1) len && (leb space c && ltb c 128)
    then line ++ (c ∷ [])
    else line

-- The line at the first end of line among the keys.
unfoldable pub typed : ℕ → Str → List ℕ → Option Str
typed len line [] = none
typed len line (c ∷ keys) =
    let rest = typed len (type_key len line c) keys in if c == newline then some line else rest

length-drop_char : (s : Str) → length (drop_char s) ≡ length s - 1
unfolding drop_char
length-drop_char [] = omega arith
length-drop_char (c ∷ []) = omega arith
length-drop_char (c ∷ d ∷ s) = omega (arith, length-drop_char (d ∷ s))

get_or-drop_char : (s : Str) (k : ℕ) → k + 1 < length s → get_or (drop_char s) k 0 ≡ get_or s k 0
unfolding drop_char
get_or-drop_char [] k lt = absurd (omega arith)
get_or-drop_char (c ∷ []) k lt = absurd (omega arith)
get_or-drop_char (c ∷ d ∷ s) zero lt = refl
get_or-drop_char (c ∷ d ∷ s) (suc k) lt = get_or-drop_char (d ∷ s) k (omega arith)

-- While the line is read, the buffer holds it and zeros behind it; the bytes behind the buffer
-- are those of `b`, and the console has kept to the screen of `s`.
pub record IsReading (s : Console) (b : Bytes) (len : ℕ) (line : Str) (r : Reading) : Type 0 where
  pub at : r.pos ≡ length line
  pub room : length line < len
  pub small : len < 2 ^ 64
  pub bytes : (k : ℕ) → k < length line → r.buf k ≡ get_or line k 0
  pub printable : (k : ℕ) → k < length line → space ≤ get_or line k 0
  pub zeros : (k : ℕ) → length line ≤ k → k < len → r.buf k ≡ 0
  pub beyond : (k : ℕ) → len ≤ k → r.buf k ≡ b k
  pub screen : OnScreen s r.console

backspace-IsReading :
    (s : Console) (b : Bytes) (len mask : ℕ) (line : Str) (r : Reading)
    → IsReading s b len line r
    → IsReading s b len (drop_char line) (read_step len mask r backspace)
unfolding read_step
backspace-IsReading s b len mask line r v =
    let size = length-drop_char line in
    record {
      at = ground (arith, v.at, size);
      room = ground (arith, v.room, size);
      small = v.small;
      bytes = λ k lt. ground (arith, v.at, size, v.bytes k, get_or-drop_char line k);
      printable = λ k lt. ground (arith, size, v.printable k, get_or-drop_char line k);
      zeros = λ k lo hi. ground (arith, v.at, size, v.zeros k);
      beyond = λ k le. ground (arith, v.at, v.room, v.beyond k);
      screen = elim (Bool-cases (ltb 0 r.pos)) [
        | inl e ↦ rw e (
            OnScreen-trans s r.console (console_putc r.console backspace) v.screen
              (console_putc-OnScreen r.console backspace v.screen.valid))
        | inr e ↦ rw e v.screen
      ];
    }

append-IsReading :
    (s : Console) (b : Bytes) (len mask c : ℕ) (line : Str) (r : Reading)
    → IsReading s b len line r
    → length line + 1 < len
    → space ≤ c
    → IsReading s b len (line ++ (c ∷ [])) (record {
      console = console_putc r.console (echo mask c);
      buf = update r.buf r.pos c;
      pos = r.pos + 1;
    })
append-IsReading s b len mask c line r v room print =
    let size = length-append line (c ∷ []) in
    record {
      at = ground (arith, v.at, size);
      room = ground (arith, size);
      small = v.small;
      bytes = λ k lt. elim (ℕ_discrete k (length line)) [
        | yes here ↦
            (let first : k - length line ≡ 0 = omega arith in
              ground (arith, v.at, here, first, get_or-append line (c ∷ []) k))
        | no before ↦ ground (arith, v.at, size, v.bytes k, get_or-append line (c ∷ []) k)
      ];
      printable = λ k lt. elim (ℕ_discrete k (length line)) [
        | yes here ↦
            (let first : k - length line ≡ 0 = omega arith in
              ground (arith, here, first, get_or-append line (c ∷ []) k))
        | no before ↦ ground (arith, size, v.printable k, get_or-append line (c ∷ []) k)
      ];
      zeros = λ k lo hi. ground (arith, v.at, size, v.zeros k);
      beyond = λ k le. ground (arith, v.at, v.beyond k);
      screen =
          OnScreen-trans s r.console (console_putc r.console (echo mask c)) v.screen
            (console_putc-OnScreen r.console (echo mask c) v.screen.valid);
    }

read_step-IsReading :
    (s : Console) (b : Bytes) (len mask c : ℕ) (line : Str) (r : Reading)
    → IsReading s b len line r
    → IsReading s b len (type_key len line c) (read_step len mask r c)
unfolding type_key read_step
read_step-IsReading s b len mask c line r v = elim (ℕ_discrete c backspace) [
  | yes e ↦
      subst (λ x. IsReading s b len (type_key len line x) (read_step len mask r x)) (sym e)
        (backspace-IsReading s b len mask line r v)
  | no other ↦
      (let no_back : (c == backspace) ≡ false = ground arith in
        let last : sub64 len 1 ≡ len - 1 = omega (arith, v.room, v.small) in
        elim (Bool-cases (ltb (length line + 1) len && (leb space c && ltb c 128))) [
          | inl e ↦
              (let accepts : ltb r.pos (sub64 len 1) && (leb space c && ltb c 128) ≡ true =
                  ground (arith, last, v.at, e) in
                rw (no_back, e, accepts)
                  (append-IsReading s b len mask c line r v (ground (arith, e))
                    (ground (arith, e))))
          | inr e ↦
              (let drops : ltb r.pos (sub64 len 1) && (leb space c && ltb c 128) ≡ false =
                  ground (arith, last, v.at, e) in
                rw (no_back, e, drops) v)
        ])
]

-- The line has been read: it stands in the buffer with its NUL, and no byte behind the buffer and
-- no cell off the screen was written.
pub record IsLine (s : Console) (b : Bytes) (len : ℕ) (line : Str) (r : Reading) : Type 0 where
  pub holds : Holds r.buf 0 line
  pub fits : length line < len
  pub beyond : (k : ℕ) → len ≤ k → r.buf k ≡ b k
  pub screen : OnScreen s r.console

done-IsLine :
    (s : Console) (b : Bytes) (len : ℕ) (line : Str) (r : Reading)
    → IsReading s b len line r
    → IsLine s b len line (record {
      console = console_putc r.console newline;
      buf = update r.buf r.pos 0;
      pos = r.pos;
    })
done-IsLine s b len line r v = record {
  holds = record {
    bytes = λ k lt. ground (arith, v.at, v.bytes k);
    nonzero = λ k lt. omega (arith, v.printable k lt);
    end = ground (arith, v.at);
  };
  fits = v.room;
  beyond = λ k le. ground (arith, v.at, v.room, v.beyond k);
  screen =
      OnScreen-trans s r.console (console_putc r.console newline) v.screen
        (console_putc-OnScreen r.console newline v.screen.valid);
}

-- The outcome of a loop that began with `line` in the buffer: it waits for more keys, or the line
-- that the keys spell has been read.
abbrev Reads : Console → Bytes → ℕ → Str → List ℕ → Option Reading → Type 0
Reads s b len line keys o =
    ((typed len line keys ≡ none) × (o ≡ none))
    ⊎ ((text : Str) × (r : Reading) × (typed len line keys ≡ some text)
        × (o ≡ some r)
        × IsLine s b len text r)

read_loop-Reads :
    (keys : List ℕ) (s : Console) (b : Bytes) (len mask : ℕ) (line : Str) (r : Reading)
    → IsReading s b len line r
    → Reads s b len line keys (read_loop len mask r keys)
unfolding typed read_loop
read_loop-Reads [] s b len mask line r v = inl (refl, refl)
read_loop-Reads (c ∷ keys) s b len mask line r v = elim (Bool-cases (c == newline)) [
  | inl e ↦ inr (
    line,
    record { console = console_putc r.console newline; buf = update r.buf r.pos 0; pos = r.pos },
    ground (arith, e),
    ground (arith, e),
    done-IsLine s b len line r v,
  )
  | inr e ↦
      elim (read_loop-Reads keys s b len mask (type_key len line c) (read_step len mask r c)
        (read_step-IsReading s b len mask c line r v)) [
          | inl h ↦ inl (ground (arith, e, h.0), ground (arith, e, h.1))
          | inr (text, t, spelt, run, l) ↦
              inr (text, t, ground (arith, e, spelt), ground (arith, e, run), l)
        ]
]

-- On a valid screen, with a buffer of at least 1 and fewer than 2^64 bytes, console_readline
-- waits as long as the keys hold no end of line, and then leaves in the buffer, with its NUL, the
-- line that `typed` spells: printable characters that leave room are appended and a backspace
-- takes the last one. The line is shorter than the buffer, and no byte behind the buffer and no
-- cell off the screen is written.
pub console_readline_lem :
    (s : Console) (b : Bytes) (len echo_mask : ℕ) (keys : List ℕ)
    → IsConsole s
    → 0 < len
    → len < 2 ^ 64
    → ((typed len [] keys ≡ none) × (console_readline s b len echo_mask keys ≡ none))
      ⊎ ((line : Str) × (r : Reading) × (typed len [] keys ≡ some line)
          × (console_readline s b len echo_mask keys ≡ some r)
          × IsLine s b len line r)
unfolding console_readline
console_readline_lem s b len echo_mask keys v pos small =
    read_loop-Reads keys s b len echo_mask [] start (record {
      at = refl;
      room = pos;
      small = small;
      bytes = λ k lt. absurd (omega arith);
      printable = λ k lt. absurd (omega arith);
      zeros = λ k lo hi. ground (arith, k_memset_lem b 0 0 len k);
      beyond = λ k le. ground (arith, k_memset_lem b 0 0 len k);
      screen = OnScreen-refl s v;
    })
  where
    start : Reading
    start = record { console = s; buf = k_memset b 0 0 len; pos = 0 }

-- ===== src/Keyboard/Sequences.antt =====
-- Which keys the scan codes put into the ring.
use innovati_os.Base.{
  ℕ, ◌%◌, ◌<◌, ◌≡◌, refl, ◌⊎◌, Bool, true, false, not, Bool-cases, inl, inr, ◌||◌, ◌&&◌, Option,
  none, some, List, [], ◌∷◌, ◌++◌, ◌==◌, ltb, leb, if◌then◌else◌, arith,
}
use innovati_os.Ring
use innovati_os.Ring.{Ring}
use innovati_os.Ring.Contents.{IsRing, contents, is_full, push_lem}
use innovati_os.Keyboard.{
  Keyboard, translate, numpad_key, push_key, push_if, normal_key, extended_key, handle_normal,
  handle_extended, handle_code, handle_irq, handle_irqs,
}
use innovati_os.Keyboard.Codes.{
  key_limit, key_pause, key_lshift, key_rshift, key_numpad_enter, key_numpad_slash,
}
use innovati_os.Keyboard.Invariant.{IsKeyboard}
use innovati_os.Keyboard.Keys.{normal_key-valid, extended_key-valid, normal_key-release}

-- The key that a plain scan code stands for, if any.
abbrev normal_emits : Keyboard → ℕ → Bool → Option ℕ
normal_emits k code is_break =
    if code == 0x2A
    then some key_lshift
    else if code == 0x36
    then some key_rshift
    else if (code == 0x1D)
        || ((code == 0x38) || ((code == 0x3A) || ((code == 0x45) || (code == 0x46))))
    then none
    else normal_key k code is_break

abbrev extended_emits : ℕ → Bool → Option ℕ
extended_emits code is_break =
    if is_break || ((code == 0x1D) || (code == 0x38))
    then none
    else if code == 0x1C
    then some key_numpad_enter
    else if code == 0x35
    then some key_numpad_slash
    else extended_key code

-- The key that a scan code adds to the queue, if any.
abbrev pub emits : Keyboard → ℕ → Option ℕ
emits k sc =
    if ltb 0 k.pause_left
    then (if k.pause_left == 1 then some key_pause else none)
    else if (sc == 0xE1) || (sc == 0xE0)
    then none
    else if k.extended
    then extended_emits (sc % 0x80) (leb 0x80 sc)
    else normal_emits k (sc % 0x80) (leb 0x80 sc)

abbrev queued : Ring → Option ℕ → Ring
queued r o = elim o [ none ↦ r | some x ↦ (Ring.push r x).0 ]

ring-push_if : (k : Keyboard) (o : Option ℕ) → (push_if k o).ring ≡ queued k.ring o
unfolding push_if push_key
ring-push_if k none = refl
ring-push_if k (some x) = refl

handle_normal-ring :
    (k : Keyboard) (code : ℕ) (b : Bool)
    → (handle_normal k code b).ring ≡ queued k.ring (normal_emits k code b)
unfolding handle_normal push_key
handle_normal-ring k code b = ground (arith, ring-push_if k (normal_key k code b))

handle_extended-ring :
    (k : Keyboard) (code : ℕ) (b : Bool)
    → (handle_extended k code b).ring ≡ queued k.ring (extended_emits code b)
unfolding handle_extended push_key
handle_extended-ring k code b = ground (
  arith,
  ring-push_if k (extended_key code),
  ring-push_if (record k { gui_held = true }) (extended_key code),
)

-- No key depends on the prefix flag.
normal_key-extended :
    (k : Keyboard) (code : ℕ) (b : Bool)
    → normal_key (record k { extended = false }) code b ≡ normal_key k code b
unfolding normal_key numpad_key translate
normal_key-extended k code b = refl

handle_irq-ring : (k : Keyboard) (sc : ℕ) → (handle_irq k sc).ring ≡ queued k.ring (emits k sc)
unfolding handle_irq handle_code push_key
handle_irq-ring k sc =
    let k' = record k { extended = false } in
    ground (
      arith,
      handle_normal-ring k' (sc % 0x80) (leb 0x80 sc),
      handle_extended-ring k' (sc % 0x80) (leb 0x80 sc),
      normal_key-extended k (sc % 0x80) (leb 0x80 sc),
    )

emits-valid : (k : Keyboard) (sc : ℕ) {x : ℕ} → emits k sc ≡ some x → (0 < x) × (x < key_limit)
emits-valid k sc {x} e = ground (
  arith,
  normal_key-valid k (sc % 0x80) (leb 0x80 sc) {x = x},
  extended_key-valid (sc % 0x80) {x = x},
)

-- The queue with a key added, if there is room.
abbrev pub with_key : Ring → Option ℕ → List ℕ
with_key r o = elim o [
  | none ↦ contents r
  | some x ↦ if is_full r then contents r else contents r ++ (x ∷ [])
]

contents-queued : (r : Ring) (o : Option ℕ) → IsRing r → contents (queued r o) ≡ with_key r o
contents-queued r none v = refl
contents-queued r (some x) v = (push_lem r x v).0

-- Outside a Pause sequence, the release of a key other than an unprefixed Shift.
abbrev pub is_release : Keyboard → ℕ → Bool
is_release k sc =
    (k.pause_left == 0)
    && (leb 0x80 sc && (k.extended || not ((sc % 0x80 == 0x2A) || (sc % 0x80 == 0x36))))

release-emits : (k : Keyboard) (sc : ℕ) → (is_release k sc ≡ false) ⊎ (emits k sc ≡ none)
release-emits k sc = elim (Bool-cases (is_release k sc)) [
  | inl e ↦ inr (ground (arith, e, normal_key-release k (sc % 0x80)))
  | inr e ↦ inl e
]

-- Under the invariant, a scan code leaves the queue of keys as it is or appends the one key that
-- `emits` names for it, unless 255 keys are queued, and that key is not 0 and below the end of
-- the enumeration. Outside a Pause sequence, it names none for the release of a key other than a
-- Shift without a prefix.
pub handle_irq-contents :
    (k : Keyboard) (sc : ℕ)
    → IsKeyboard k
    → (contents (handle_irq k sc).ring ≡ with_key k.ring (emits k sc))
      × ((x : ℕ) → emits k sc ≡ some x → (0 < x) × (x < key_limit))
      × ((is_release k sc ≡ false) ⊎ (emits k sc ≡ none))
handle_irq-contents k sc v = (
  rw handle_irq-ring (contents-queued k.ring (emits k sc) v.ring_ok),
  λ x e. emits-valid k sc e,
  release-emits k sc,
)

-- The six bytes of the Pause key, begun outside such a sequence, push the Pause key once and
-- change no other part of the state, whatever the five bytes behind 0xE1 are.
pub handle_irqs-pause :
    (k : Keyboard) (a b c d e : ℕ)
    → k.pause_left ≡ 0
    → handle_irqs k (0xE1 ∷ a ∷ b ∷ c ∷ d ∷ e ∷ []) ≡ push_key k key_pause
unfolding handle_irqs handle_irq push_key
handle_irqs-pause k a b c d e idle = ground arith

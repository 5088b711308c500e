-- ===== src/Keyboard/Invariant.antt =====
-- The driver's invariant, and what pushing a key leaves alone.
use innovati_os.Base.{ℕ, ◌≤◌, ◌≡◌, leb, ◌%◌, Bool, true, false, Option, none, some, arith}
use innovati_os.Keyboard.Codes.{key_pause}
use innovati_os.Ring.Contents.{IsRing, push-IsRing}
use innovati_os.Keyboard.{
  Keyboard, push_key, push_if, normal_key, extended_key, handle_normal, handle_extended,
  handle_code, handle_irq,
}

pub record IsKeyboard (k : Keyboard) : Type 0 where
  pub ring_ok : IsRing k.ring
  pub pause_ok : k.pause_left ≤ 5

-- Everything but the ring is the same.
pub record SameFlags (k l : Keyboard) : Type 0 where
  pub shift : l.shift_held ≡ k.shift_held
  pub ctrl : l.ctrl_held ≡ k.ctrl_held
  pub alt : l.alt_held ≡ k.alt_held
  pub gui : l.gui_held ≡ k.gui_held
  pub caps : l.capslock ≡ k.capslock
  pub num : l.numlock ≡ k.numlock
  pub scroll : l.scrolllock ≡ k.scrolllock
  pub ext : l.extended ≡ k.extended
  pub pause : l.pause_left ≡ k.pause_left

pub push_key-SameFlags : (k : Keyboard) (x : ℕ) → SameFlags k (push_key k x)
unfolding push_key
push_key-SameFlags k x = ground arith

pub push_if-SameFlags : (k : Keyboard) (o : Option ℕ) → SameFlags k (push_if k o)
unfolding push_if push_key
push_if-SameFlags k none = ground arith
push_if-SameFlags k (some x) = ground arith

push_key-IsRing : (k : Keyboard) (x : ℕ) → IsRing k.ring → IsRing (push_key k x).ring
unfolding push_key
push_key-IsRing k x v = push-IsRing k.ring x v

push_if-IsRing : (k : Keyboard) (o : Option ℕ) → IsRing k.ring → IsRing (push_if k o).ring
unfolding push_if
push_if-IsRing k none v = v
push_if-IsRing k (some x) v = push_key-IsRing k x v

handle_normal-IsRing :
    (k : Keyboard) (code : ℕ) (b : Bool) → IsRing k.ring → IsRing (handle_normal k code b).ring
unfolding handle_normal
handle_normal-IsRing k code b v = grind (arith, push_key-IsRing, push_if-IsRing)

handle_extended-IsRing :
    (k : Keyboard) (code : ℕ) (b : Bool) → IsRing k.ring → IsRing (handle_extended k code b).ring
unfolding handle_extended
handle_extended-IsRing k code b v = grind (arith, push_key-IsRing, push_if-IsRing)

handle_normal-pause :
    (k : Keyboard) (code : ℕ) (b : Bool) → (handle_normal k code b).pause_left ≡ k.pause_left
unfolding handle_normal push_key
handle_normal-pause k code b = ground (arith, (push_if-SameFlags k (normal_key k code b)).pause)

handle_extended-pause :
    (k : Keyboard) (code : ℕ) (b : Bool) → (handle_extended k code b).pause_left ≡ k.pause_left
unfolding handle_extended push_key
handle_extended-pause k code b = ground (
  arith,
  (push_if-SameFlags k (extended_key code)).pause,
  (push_if-SameFlags (record k { gui_held = true }) (extended_key code)).pause,
)

-- keyboard_handle_irq keeps the indices of the ring below 256 and the rest of the Pause sequence
-- at most 5 codes long.
pub handle_irq-IsKeyboard : (k : Keyboard) (sc : ℕ) → IsKeyboard k → IsKeyboard (handle_irq k sc)
unfolding handle_irq handle_code push_key
handle_irq-IsKeyboard k sc v =
    let k' = record k { extended = false } in
    record {
      ring_ok = ground (
        arith,
        v.ring_ok,
        push-IsRing k.ring key_pause v.ring_ok,
        handle_normal-IsRing k' (sc % 0x80) (leb 0x80 sc) v.ring_ok,
        handle_extended-IsRing k' (sc % 0x80) (leb 0x80 sc) v.ring_ok,
      );
      pause_ok = ground (
        arith,
        v.pause_ok,
        handle_normal-pause k' (sc % 0x80) (leb 0x80 sc),
        handle_extended-pause k' (sc % 0x80) (leb 0x80 sc),
      );
    }

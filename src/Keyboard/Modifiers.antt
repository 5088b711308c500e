-- ===== src/Keyboard/Modifiers.antt =====
-- How the modifier keys and the locks follow the scan codes.
use innovati_os.Base.{
  ℕ, ◌%◌, ◌<◌, ◌≡◌, ◌≢◌, refl, sym, subst, Bool, true, false, not, ◌&&◌, ◌||◌, List, [], ◌∷◌, ◌==◌,
  ltb, leb, if◌then◌else◌, arith,
}
use innovati_os.Keyboard.{
  Keyboard, push_key, normal_key, extended_key, handle_normal, handle_extended, handle_code,
  handle_irq, handle_irqs,
}
use innovati_os.Keyboard.Invariant.{push_if-SameFlags}

-- The flags after a scan code that is neither a prefix nor part of the Pause sequence.
pub record Tracks (k : Keyboard) (sc : ℕ) (l : Keyboard) : Type 0 where
  pub shift : l.shift_held ≡ (
      if not k.extended && ((sc % 0x80 == 0x2A) || (sc % 0x80 == 0x36))
      then ltb sc 0x80
      else k.shift_held)
  pub ctrl : l.ctrl_held ≡ (if sc % 0x80 == 0x1D then ltb sc 0x80 else k.ctrl_held)
  pub alt : l.alt_held ≡ (if sc % 0x80 == 0x38 then ltb sc 0x80 else k.alt_held)
  pub gui : l.gui_held ≡ (k.gui_held || (k.extended && ((sc == 0x5B) || (sc == 0x5C))))
  pub caps : l.capslock ≡ (if not k.extended && (sc == 0x3A) then not k.capslock else k.capslock)
  pub num : l.numlock ≡ (if not k.extended && (sc == 0x45) then not k.numlock else k.numlock)
  pub scroll :
      l.scrolllock ≡ (if not k.extended && (sc == 0x46) then not k.scrolllock else k.scrolllock)
  pub ext : l.extended ≡ false
  pub pause : l.pause_left ≡ k.pause_left

normal-Tracks :
    (k : Keyboard) (sc : ℕ)
    → sc < 256
    → k.extended ≡ false
    → Tracks k sc (handle_normal (record k { extended = false }) (sc % 0x80) (leb 0x80 sc))
unfolding handle_normal push_key
normal-Tracks k sc byte ext =
    let k' = record k { extended = false } in
    let same = push_if-SameFlags k' (normal_key k' (sc % 0x80) (leb 0x80 sc)) in
    record {
      shift = ground (arith, same.shift);
      ctrl = ground (arith, same.ctrl);
      alt = ground (arith, same.alt);
      gui = ground (arith, same.gui);
      caps = ground (arith, same.caps);
      num = ground (arith, same.num);
      scroll = ground (arith, same.scroll);
      ext = ground (arith, same.ext);
      pause = ground (arith, same.pause);
    }

extended-Tracks :
    (k : Keyboard) (sc : ℕ)
    → sc < 256
    → k.extended ≡ true
    → Tracks k sc (handle_extended (record k { extended = false }) (sc % 0x80) (leb 0x80 sc))
unfolding handle_extended push_key
extended-Tracks k sc byte ext =
    let k' = record k { extended = false } in
    let same = push_if-SameFlags k' (extended_key (sc % 0x80)) in
    let gui = push_if-SameFlags (record k' { gui_held = true }) (extended_key (sc % 0x80)) in
    record {
      shift = ground (arith, same.shift, gui.shift);
      ctrl = ground (arith, same.ctrl, gui.ctrl);
      alt = ground (arith, same.alt, gui.alt);
      gui = ground (arith, same.gui, gui.gui);
      caps = ground (arith, same.caps, gui.caps);
      num = ground (arith, same.num, gui.num);
      scroll = ground (arith, same.scroll, gui.scroll);
      ext = ground (arith, same.ext, gui.ext);
      pause = ground (arith, same.pause, gui.pause);
    }

-- Outside a Pause sequence, a byte other than the prefixes 0xE0 and 0xE1 changes each modifier
-- and lock as its own codes say: Shift, Ctrl and Alt follow the key, the locks flip on a press,
-- the GUI flag is set by a press and by nothing cleared, and the prefix flag ends.
pub handle_irq-Tracks :
    (k : Keyboard) (sc : ℕ)
    → sc < 256
    → k.pause_left ≡ 0
    → sc ≢ 0xE0
    → sc ≢ 0xE1
    → Tracks k sc (handle_irq k sc)
handle_irq-Tracks k sc byte idle plain no_pause =
    subst (Tracks k sc) (sym skips) (split k.extended refl)
  where
    skips : handle_irq k sc ≡ handle_code k sc
    skips = unfold handle_irq in ground arith

    k' : Keyboard
    k' = record k { extended = false }

    split : (b : Bool) → k.extended ≡ b → Tracks k sc (handle_code k sc)
    split true e =
        let way : handle_code k sc ≡ handle_extended k' (sc % 0x80) (leb 0x80 sc) =
          unfold handle_code in ground arith in
        subst (Tracks k sc) (sym way) (extended-Tracks k sc byte e)
    split false e =
        let way : handle_code k sc ≡ handle_normal k' (sc % 0x80) (leb 0x80 sc) =
          unfold handle_code in ground arith in
        subst (Tracks k sc) (sym way) (normal-Tracks k sc byte e)

handle_normal-gui :
    (k : Keyboard) (code : ℕ) (b : Bool) → (handle_normal k code b).gui_held ≡ k.gui_held
unfolding handle_normal push_key
handle_normal-gui k code b = ground (arith, (push_if-SameFlags k (normal_key k code b)).gui)

handle_extended-gui :
    (k : Keyboard) (code : ℕ) (b : Bool)
    → k.gui_held ≡ true
    → (handle_extended k code b).gui_held ≡ true
unfolding handle_extended push_key
handle_extended-gui k code b held = ground (
  arith,
  (push_if-SameFlags k (extended_key code)).gui,
  (push_if-SameFlags (record k { gui_held = true }) (extended_key code)).gui,
)

handle_irq-gui : (k : Keyboard) (sc : ℕ) → k.gui_held ≡ true → (handle_irq k sc).gui_held ≡ true
unfolding handle_irq handle_code push_key
handle_irq-gui k sc held =
    let k' = record k { extended = false } in
    ground (
      arith,
      handle_normal-gui k' (sc % 0x80) (leb 0x80 sc),
      handle_extended-gui k' (sc % 0x80) (leb 0x80 sc),
    )

handle_irqs-gui :
    (scs : List ℕ) (k : Keyboard) → k.gui_held ≡ true → (handle_irqs k scs).gui_held ≡ true
unfolding handle_irqs
handle_irqs-gui [] k held = held
handle_irqs-gui (sc ∷ scs) k held = handle_irqs-gui scs (handle_irq k sc) (handle_irq-gui k sc held)

-- After a press of the left GUI key, outside a Pause sequence and behind the prefix, no sequence
-- of scan codes clears the GUI flag.
pub gui_never_released :
    (scs : List ℕ) (k : Keyboard)
    → k.pause_left ≡ 0
    → k.extended ≡ true
    → (handle_irqs (handle_irq k 0x5B) scs).gui_held ≡ true
gui_never_released scs k idle ext =
    let pressed : (handle_irq k 0x5B).gui_held ≡ true =
      ground
        (arith, (handle_irq-Tracks k 0x5B (omega arith) idle (omega arith) (omega arith)).gui) in
    handle_irqs-gui scs (handle_irq k 0x5B) pressed

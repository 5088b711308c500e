-- ===== src/Scheduler/Overlay.antt =====
-- The picture of the overlay and the edges of the screen.
use innovati_os.Base.{
  ℕ, ◌+◌, ◌*◌, ◌^◌, ◌≤◌, ◌<◌, ◌≡◌, sym, subst, Bool, true, false, not, ◌||◌, ◌==◌, ltb,
  if◌then◌else◌, arith, Bool-cases, inl, inr, leb, add64,
}
use innovati_os.Scheduler.{
  Frame, Scheduler, Tick, logo_size, logo_width, logo_height, room_beside, opposite, bounce,
  update_demo_overlay, log_tick, switch, scheduler_on_timer,
}

-- The `i64` that the word stands for, and 2 ^ 63.
abbrev pub biased : ℕ → ℕ
biased n = add64 n (2 ^ 63)

-- The word stands for an `i64` between -2 ^ 62 and 2 ^ 62, both excluded.
unfoldable pub IsSmall : ℕ → Type 0
IsSmall n = (n < 2 ^ 64) × (2 ^ 62 < biased n) × (biased n < 2 ^ 63 + 2 ^ 62)

-- Neither `x + dx` nor `-dx` overflows an `i64`: the words stand for the sum and the negation.
pub record NoOverflow (x dx : ℕ) : Type 0 where
  pub sum : biased (add64 x dx) + 2 ^ 63 ≡ biased x + biased dx
  pub negation : biased (opposite dx) + biased dx ≡ 2 ^ 64

-- A coordinate whose logo is wholly on the screen, and its speed.
pub record IsAxis (screen logo x dx max_x : ℕ) : Type 0 where
  pub inside : x + logo * logo_size ≤ screen
  pub small_x : IsSmall x
  pub small_dx : IsSmall dx
  pub room : max_x ≡ room_beside screen logo

small-NoOverflow : (x dx : ℕ) → IsSmall x → IsSmall dx → NoOverflow x dx
unfolding IsSmall
small-NoOverflow x dx (w, lo_x, hi_x) (w_dx, lo_dx, hi_dx) = record {
  sum = omega arith;
  negation = omega arith;
}

opposite-IsSmall : (dx : ℕ) → IsSmall dx → IsSmall (opposite dx)
unfolding IsSmall
opposite-IsSmall dx (w, lo, hi) = (omega arith, omega arith, omega arith)

low-IsSmall : (x : ℕ) → x < 2 ^ 62 → IsSmall x
unfolding IsSmall
low-IsSmall x low = (omega arith, omega arith, omega arith)

bounce-IsAxis :
    (screen logo x dx max_x : ℕ)
    → logo * logo_size < screen
    → screen ≤ 2 ^ 62
    → IsSmall dx
    → max_x ≡ room_beside screen logo
    → 0 < logo
    → IsAxis screen logo (bounce x dx max_x).0 (bounce x dx max_x).1 max_x
unfolding room_beside
bounce-IsAxis screen logo x dx max_x wide low small room some_logo =
    let size : max_x + logo * logo_size ≡ screen = ground (arith, wide, room) in
    let at_zero : IsAxis screen logo 0 (opposite dx) max_x = record {
      inside = omega (arith, wide);
      small_x = low-IsSmall 0 (omega arith);
      small_dx = opposite-IsSmall dx small;
      room = room;
    } in
    let at_max : IsAxis screen logo max_x (opposite dx) max_x = record {
      inside = omega (arith, size);
      small_x = low-IsSmall max_x (omega arith);
      small_dx = opposite-IsSmall dx small;
      room = room;
    } in
    elim (Bool-cases ((x == 0) || leb (2 ^ 63) x)) [
      | inl e ↦ rw e at_zero
      | inr e ↦ elim (Bool-cases (leb max_x x)) [
        | inl far ↦ rw (e, far) at_max
        | inr near ↦
            (let below : x < max_x = ground arith in
              rw (e, near)
                (record {
                  inside = omega (arith, size);
                  small_x = low-IsSmall x (omega arith);
                  small_dx = small;
                  room = room;
                }))
      ]
    ]

abbrev pub OnScreen : ℕ → ℕ → Scheduler → Type 0
OnScreen width height s =
    IsAxis width logo_width s.anim_x s.anim_dx s.anim_max_x
    × IsAxis height logo_height s.anim_y s.anim_dy s.anim_max_y

overlay-OnScreen :
    (width height : ℕ) (s : Scheduler)
    → logo_width * logo_size < width
    → logo_height * logo_size < height
    → width ≤ 2 ^ 62
    → height ≤ 2 ^ 62
    → s.anim_max_x ≡ room_beside width logo_width
    → s.anim_max_y ≡ room_beside height logo_height
    → IsSmall s.anim_dx
    → IsSmall s.anim_dy
    → OnScreen width height (update_demo_overlay width height s)
unfolding update_demo_overlay
overlay-OnScreen width height s wide high low_w low_h mx my dx dy =
    let drawn : ((width == 0) || (height == 0)) ≡ false = ground (arith, wide, high) in
    rw drawn (
      bounce-IsAxis width logo_width (add64 s.anim_x s.anim_dx) s.anim_dx s.anim_max_x wide low_w dx
          mx (omega arith),
      bounce-IsAxis height logo_height (add64 s.anim_y s.anim_dy) s.anim_dy s.anim_max_y high low_h
          dy my (omega arith),
    )

if-OnScreen :
    (width height : ℕ) (b : Bool) (x y : Scheduler)
    → OnScreen width height x
    → OnScreen width height y
    → OnScreen width height (if b then x else y)
if-OnScreen width height true x y hx hy = hx
if-OnScreen width height false x y hx hy = hy

log_tick-OnScreen :
    (width height ticks : ℕ) (s : Scheduler)
    → OnScreen width height s
    → OnScreen width height (log_tick ticks s)
unfolding log_tick
log_tick-OnScreen width height ticks s h =
    if-OnScreen width height _ (record s { last_tick_log = ticks }) s h h

switch-OnScreen :
    (width height : ℕ) (s : Scheduler) (frame : Frame)
    → OnScreen width height s
    → OnScreen width height (switch s frame).0
unfolding switch
switch-OnScreen width height s frame h = h

-- With at least one task, on a screen larger than the logo in both directions and at most 2^62
-- pixels wide and high, with the bounds that scheduler_init computes from it and with positions
-- and speeds whose magnitudes are below 2^62, a timer interrupt overflows no signed sum and no
-- negation, leaves the logo wholly on the screen, and keeps the bounds and those magnitudes.
pub scheduler_on_timer-OnScreen :
    (s : Scheduler) (tick : Tick)
    → 0 < s.task_count
    → logo_width * logo_size < tick.width
    → logo_height * logo_size < tick.height
    → tick.width ≤ 2 ^ 62
    → tick.height ≤ 2 ^ 62
    → s.anim_max_x ≡ room_beside tick.width logo_width
    → s.anim_max_y ≡ room_beside tick.height logo_height
    → IsSmall s.anim_x
    → IsSmall s.anim_dx
    → IsSmall s.anim_y
    → IsSmall s.anim_dy
    → OnScreen tick.width tick.height (scheduler_on_timer s tick).0
      × NoOverflow s.anim_x s.anim_dx
      × NoOverflow s.anim_y s.anim_dy
unfolding scheduler_on_timer
scheduler_on_timer-OnScreen s tick some_task wide high low_w low_h mx my x dx y dy =
    let w : ℕ = tick.width in
    let h : ℕ = tick.height in
    let logged : Scheduler = log_tick tick.ticks (update_demo_overlay w h s) in
    let on : OnScreen w h logged =
      log_tick-OnScreen w h tick.ticks _
        (overlay-OnScreen w h s wide high low_w low_h mx my dx dy) in
    let run : (s.task_count == 0) ≡ false = ground (arith, some_task) in
    (
      subst
          (λ b.
            OnScreen w h
              (if b
                then (s, tick.frame)
                else if not logged.running || ltb logged.task_count 2
                then (logged, tick.frame)
                else switch logged tick.frame).0)
          (sym run)
          (either (not logged.running || ltb logged.task_count 2) (logged, tick.frame)
            (switch logged tick.frame) on (switch-OnScreen w h logged tick.frame on)),
      small-NoOverflow s.anim_x s.anim_dx x dx,
      small-NoOverflow s.anim_y s.anim_dy y dy,
    )
  where
    either :
        (b : Bool) (x y : Scheduler × Frame)
        → OnScreen tick.width tick.height x.0
        → OnScreen tick.width tick.height y.0
        → OnScreen tick.width tick.height (if b then x else y).0
    either true x y hx hy = hx
    either false x y hx hy = hy

-- ===== src/Scheduler.antt =====
-- The scheduler, kernel/src/proc/scheduler.c: the tasks and the round robin of the timer interrupt.
--
-- A task's page is mapped into the address space, and the machine code written into it, outside of
-- this state; so is what the overlay draws and what goes to the serial line.
pub mod Init
pub mod Turns
pub mod Overlay
mod Tests
use innovati_os.Base.{
  ℕ, zero, suc, ◌+◌, ◌-◌, ◌*◌, ◌%◌, ◌^◌, Bool, true, false, not, ◌||◌, Option, none, some, List, [],
  ◌∷◌, ◌==◌, ltb, leb, if◌then◌else◌, update, add64, sub64, mul64,
}
use innovati_os.Vfs.{Str}
use innovati_os.Pmm.{Pmm, alloc_page}

-- `interrupt_frame_t`
pub record Frame : Type 0 where
  pub r15 : ℕ
  pub r14 : ℕ
  pub r13 : ℕ
  pub r12 : ℕ
  pub r11 : ℕ
  pub r10 : ℕ
  pub r9 : ℕ
  pub r8 : ℕ
  pub rdi : ℕ
  pub rsi : ℕ
  pub rbp : ℕ
  pub rdx : ℕ
  pub rcx : ℕ
  pub rbx : ℕ
  pub rax : ℕ
  pub vector : ℕ
  pub error_code : ℕ
  pub rip : ℕ
  pub cs : ℕ
  pub rflags : ℕ
  pub rsp : ℕ
  pub ss : ℕ

-- `process_t`
pub record Process : Type 0 where
  pub used : Bool
  pub pid : ℕ
  pub name : Str
  pub code_phys : ℕ
  pub stack_phys : ℕ
  pub code_vaddr : ℕ
  pub stack_vaddr : ℕ
  pub frame : Frame

-- The globals. An `i64` is the 64-bit word that stands for it: from 2 ^ 63 on it is negative. Where
-- the C code overflows an `i64`, which C leaves undefined, the word wraps around.
pub record Scheduler : Type 0 where
  pub tasks : ℕ → Process
  pub task_count : ℕ
  pub current_task : ℕ
  pub next_pid : ℕ
  pub switch_count : ℕ
  pub running : Bool
  pub anim_x : ℕ
  pub anim_y : ℕ
  pub anim_dx : ℕ
  pub anim_dy : ℕ
  pub anim_max_x : ℕ
  pub anim_max_y : ℕ
  pub last_tick_log : ℕ

-- `g_logo_size`, and the width and height of the logo.
abbrev pub logo_size : ℕ
logo_size = 4

abbrev pub logo_width : ℕ
logo_width = 16

abbrev pub logo_height : ℕ
logo_height = 16

-- `g_anim_max_x` or `g_anim_max_y`: what the screen leaves beside the logo.
unfoldable pub room_beside : ℕ → ℕ → ℕ
room_beside screen logo = if ltb (logo * logo_size) screen then screen - logo * logo_size else 0

-- `-dx`
abbrev pub opposite : ℕ → ℕ
opposite dx = sub64 0 dx

-- One coordinate of the overlay, where it has moved to: `<= 0`, `>= g_anim_max_x`, or between.
abbrev pub bounce : ℕ → ℕ → ℕ → ℕ × ℕ
bounce x dx max_x =
    if (x == 0) || leb (2 ^ 63) x
    then (0, opposite dx)
    else if leb max_x x
    then (max_x, opposite dx)
    else (x, dx)

unfoldable pub update_demo_overlay : ℕ → ℕ → Scheduler → Scheduler
update_demo_overlay width height s =
    let (x, dx) = bounce (add64 s.anim_x s.anim_dx) s.anim_dx s.anim_max_x in
    let (y, dy) = bounce (add64 s.anim_y s.anim_dy) s.anim_dy s.anim_max_y in
    if (width == 0) || (height == 0)
    then s
    else record s { anim_x = x; anim_y = y; anim_dx = dx; anim_dy = dy }

-- The tick that is logged every 100 ticks.
unfoldable pub log_tick : ℕ → Scheduler → Scheduler
log_tick ticks s =
    if leb 100 (sub64 ticks s.last_tick_log) then record s { last_tick_log = ticks } else s

-- The switch: the frame is saved in the current task, and the next task's frame takes its place.
unfoldable pub switch : Scheduler → Frame → Scheduler × Frame
switch s frame =
    let i : ℕ = s.current_task in
    let next : ℕ = add64 i 1 % s.task_count in
    let tasks : ℕ → Process = update s.tasks i (record (s.tasks i) { frame = frame }) in
    (
      record s { tasks = tasks; current_task = next; switch_count = add64 s.switch_count 1 },
      (tasks next).frame,
    )

-- What the timer interrupt finds: the screen, `pit_get_ticks`, and the frame on the stack.
pub record Tick : Type 0 where
  pub width : ℕ
  pub height : ℕ
  pub ticks : ℕ
  pub frame : Frame

unfoldable pub scheduler_on_timer : Scheduler → Tick → Scheduler × Frame
scheduler_on_timer s tick =
    let drawn : Scheduler = update_demo_overlay tick.width tick.height s in
    let logged : Scheduler = log_tick tick.ticks drawn in
    if s.task_count == 0
    then (s, tick.frame)
    else if not logged.running || ltb logged.task_count 2
    then (logged, tick.frame)
    else switch logged tick.frame

-- The frame that is entered; `none` is `scheduler_fatal`.
unfoldable pub scheduler_start_demo : Scheduler → Option (Scheduler × Frame)
scheduler_start_demo s =
    if s.task_count == 0 then none else some (record s { running = true }, (s.tasks 0).frame)

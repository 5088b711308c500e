-- ===== src/Scheduler/Init.antt =====
-- `scheduler_init`: the tasks and the first values of the globals.
use innovati_os.Base.{
  ℕ, ◌+◌, ◌*◌, true, false, ◌||◌, Option, none, some, [], ◌∷◌, ◌==◌, if◌then◌else◌, update, add64,
}
use innovati_os.Vfs.{Str}
use innovati_os.Pmm.{Pmm, alloc_page}
use innovati_os.Scheduler.{Frame, Process, Scheduler, room_beside, logo_width, logo_height}

abbrev pub user_code_base : ℕ
user_code_base = 0x0000000000400000

abbrev pub user_stack_base : ℕ
user_stack_base = 0x0000000000600000

abbrev pub task_slot_stride : ℕ
task_slot_stride = 0x0000000000020000

abbrev pub zero_frame : Frame
zero_frame = record {
  r15 = 0;
  r14 = 0;
  r13 = 0;
  r12 = 0;
  r11 = 0;
  r10 = 0;
  r9 = 0;
  r8 = 0;
  rdi = 0;
  rsi = 0;
  rbp = 0;
  rdx = 0;
  rcx = 0;
  rbx = 0;
  rax = 0;
  vector = 0;
  error_code = 0;
  rip = 0;
  cs = 0;
  rflags = 0;
  rsp = 0;
  ss = 0;
}

unfoldable pub init_frame : ℕ → ℕ → Frame
init_frame rip rsp = record zero_frame {
  rip = rip;
  cs = 0x1B;
  rflags = 0x202;
  rsp = rsp;
  ss = 0x23;
}

-- The task in its slot, once its two pages are allocated.
unfoldable pub new_task : Str → ℕ → ℕ → ℕ → ℕ → Process
new_task name slot pid code stack =
    let code_vaddr : ℕ = user_code_base + slot * task_slot_stride in
    let stack_vaddr : ℕ = user_stack_base + slot * task_slot_stride in
    record {
      used = true;
      pid = pid;
      name = name;
      code_phys = code;
      stack_phys = stack;
      code_vaddr = code_vaddr;
      stack_vaddr = stack_vaddr;
      frame = init_frame code_vaddr (stack_vaddr + 4096);
    }

-- `setup_task(&g_tasks[g_task_count++], name, slot)`; `none` is `scheduler_fatal`.
unfoldable pub setup_task : Pmm → Scheduler → Str → ℕ → Option (Pmm × Scheduler)
setup_task p s name slot =
    let (p1, code) = alloc_page p in
    let (p2, stack) = alloc_page p1 in
    if (code == 0) || (stack == 0)
    then none
    else some (
      p2,
      record s {
        tasks = update s.tasks s.task_count (new_task name slot s.next_pid code stack);
        task_count = s.task_count + 1;
        next_pid = add64 s.next_pid 1;
      },
    )

abbrev pub no_task : Process
no_task = record {
  used = false;
  pid = 0;
  name = [];
  code_phys = 0;
  stack_phys = 0;
  code_vaddr = 0;
  stack_vaddr = 0;
  frame = zero_frame;
}

-- The assignments of `scheduler_init`, on a screen of the width and height.
unfoldable pub start_state : ℕ → ℕ → Scheduler
start_state width height = record {
  tasks = λ i. no_task;
  task_count = 0;
  current_task = 0;
  next_pid = 1;
  switch_count = 0;
  running = false;
  anim_x = 100;
  anim_y = 100;
  anim_dx = 4;
  anim_dy = 3;
  anim_max_x = room_beside width logo_width;
  anim_max_y = room_beside height logo_height;
  last_tick_log = 0;
}

abbrev pub alpha_name : Str
alpha_name = b'r' ∷ b'i' ∷ b'n' ∷ b'g' ∷ b'3' ∷ b'-' ∷ b'a' ∷ b'l' ∷ b'p' ∷ b'h' ∷ b'a' ∷ []

abbrev pub beta_name : Str
beta_name = b'r' ∷ b'i' ∷ b'n' ∷ b'g' ∷ b'3' ∷ b'-' ∷ b'b' ∷ b'e' ∷ b't' ∷ b'a' ∷ []

unfoldable pub scheduler_init : Pmm → ℕ → ℕ → Option (Pmm × Scheduler)
scheduler_init p width height = elim (setup_task p (start_state width height) alpha_name 0) [
  | none ↦ none
  | some (p1, s1) ↦ setup_task p1 s1 beta_name 1
]
